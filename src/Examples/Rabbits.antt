-- ===== src/Examples/Rabbits.antt =====
-- A pool of one publisher that cannot be given back.
use go_o11y.Prelude.{◌≡◌, refl, false, some, [], ◌∷◌}
use go_o11y.Errors.{ok, text}
use go_o11y.Rabbit.{
  Message, borrowed, sent, given_back, closed, Outside, PublisherPool, publish_message,
  publish_optional, publish_json, publish_json_optional,
}
use go_o11y.Rabbit.Settled.{Published, PublishedJson, mandatory_of, publish-Settles}

abbrev outside : Outside
outside = record {
  borrow = λ l. ok 4;
  send = λ l n m. some (text "nack");
  give_back = λ l n. some (text "broken");
  num_active = λ l. 0;
  num_idle = λ l. 0;
  destroyed_count = λ l. 0;
}

abbrev message : Message
message = record {
  exchange = "jobs";
  key = "run";
  mandatory = false;
  content_type = "text/plain";
  body = "hi";
}

abbrev pool : PublisherPool
pool = record { name = "jobs"; events = []; spans = [] }

publish_dropped :
    (publish_message outside message pool).1.events
    ≡ borrowed (ok 4)
      ∷ sent 4 (mandatory_of message) (some (text "nack"))
      ∷ given_back 4 (some (text "broken"))
      ∷ closed 4
      ∷ []
unfolding publish_message
publish_dropped = refl

publish-Settles_example :
    Published (mandatory_of message) pool (publish_message outside message pool)
    × Published message pool (publish_optional outside message pool)
    × PublishedJson mandatory_of message
        (ok "{}")
        pool
        (publish_json outside message (ok "{}") pool)
    × PublishedJson
        (λ m. m)
        message
        (ok "{}")
        pool
        (publish_json_optional outside message (ok "{}") pool)
publish-Settles_example = publish-Settles outside message (ok "{}") pool
