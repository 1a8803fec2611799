-- ===== src/Rabbit.antt =====
-- The pool of publishers of RabbitMQ messages (rabbit/publisherpool.go). A publisher is a number.
pub mod Settled
use go_o11y.Prelude.{ℕ, String, Bool, true, false, Option, none, some, List, [], ◌∷◌, ◌++◌, Dict}
use go_o11y.Errors.{Err, Result, ok, err, text}
use go_o11y.Span
use go_o11y.Span.{
  Span, SpanConfig, Pair, start, add_field, record_metric, timing, end_span, with_span_kind,
  producer, log_error, num,
}

-- publisher.Message with the parts of its Publishing that are used. Its context is left out.
pub record Message : Type 0 where
  pub exchange : String
  pub key : String
  pub mandatory : Bool
  pub content_type : String
  pub body : String

-- A returned message of amqp.
pub record Return : Type 0 where
  pub reply_code : ℕ
  pub reply_text : String
  pub exchange : String
  pub routing_key : String

-- What is asked of go-commons-pool and of a publisher, with what came of it.
pub data PoolEvent : Type 0 where
  borrowed : Result ℕ → PoolEvent
  sent : ℕ → Message → Option Err → PoolEvent
  given_back : ℕ → Option Err → PoolEvent
  closed : ℕ → PoolEvent
  pool_closed : PoolEvent

-- Each answer may depend on all that was asked before. `marshal` is json.Marshal of the value given.
pub record Outside : Type 0 where
  pub borrow : List PoolEvent → Result ℕ
  pub send : List PoolEvent → ℕ → Message → Option Err
  pub give_back : List PoolEvent → ℕ → Option Err
  pub num_active : List PoolEvent → ℕ
  pub num_idle : List PoolEvent → ℕ
  pub destroyed_count : List PoolEvent → ℕ

pub record PublisherPool : Type 0 where
  pub name : String
  pub events : List PoolEvent
  pub spans : List Span

abbrev json : String
json = "application/json; charset=utf-8"

-- NewPublisherPool: an object pool with nothing borrowed.
unfoldable pub new_publisher_pool : String → PublisherPool
new_publisher_pool name = record { name = name; events = []; spans = [] }

-- The configuration of the pool.
abbrev max_total : ℕ
max_total = 16

abbrev max_idle : ℕ
max_idle = 16

-- The span that is ended, with the error of the operation.
unfoldable pub end_in : Span → Option Err × PublisherPool → Option Err × PublisherPool
end_in calls (e, p) = (e, record p { spans = p.spans ++ (calls ++ end_span e) ∷ [] })

-- Close of the pool
unfoldable pub close_pool : PublisherPool → Option Err × PublisherPool
unfolding end_in
close_pool p =
    end_in (start "pool: close" (record { kind = none }) ∷ [])
      (none, record p { events = p.events ++ pool_closed ∷ [] })

-- The deferred function of publish: a publisher that cannot be given back is closed.
unfoldable pub settle : ℕ → Option Err → PublisherPool → PublisherPool
settle n none p = record p { events = p.events ++ given_back n none ∷ [] }
settle n (some e) p = record p {
  events = p.events ++ given_back n (some e) ∷ closed n ∷ [];
  spans = p.spans ++ log_error "pool: error returning publisher to pool" (some e) [] ∷ [];
}

publish_fields : Message → String → Span
publish_fields msg content_type =
    add_field "exchange" (Span.text msg.exchange)
    ∷ add_field "key" (Span.text msg.key)
    ∷ add_field "content_type" (Span.text content_type)
    ∷ record_metric (timing "pool.publish" ("exchange" ∷ "key" ∷ "content_type" ∷ []))
    ∷ []

-- The handler of returned messages, for one of them.
unfoldable pub on_return : Return → PublisherPool → PublisherPool
on_return r p = record p {
  spans =
      p.spans
      ++ log_error "pool: returned message" (some (text r.reply_text)) (
          record { key = "reply_code"; value = num r.reply_code }
          ∷ record { key = "exchange"; value = Span.text r.exchange }
          ∷ record { key = "routing_key"; value = Span.text r.routing_key }
          ∷ [])
        ∷ [];
}

module _ (o : Outside) where
  -- publish with what borrowing gave.
  unfoldable pub publish_with : Message → Result ℕ → PublisherPool → Option Err × PublisherPool
  unfolding settle
  publish_with msg (err e) p = (some e, record p { events = p.events ++ borrowed (err e) ∷ [] })
  publish_with msg (ok n) p =
      let lent = p.events ++ borrowed (ok n) ∷ [] in
      let e = o.send lent n msg in
      let done = lent ++ sent n msg e ∷ [] in
      (e, settle n (o.give_back done n) (record p { events = done }))

  -- publish
  unfoldable pub publish_any : Message → PublisherPool → Option Err × PublisherPool
  unfolding publish_with
  publish_any msg p = publish_with msg (o.borrow p.events) p

  -- publishMandatory
  unfoldable pub publish_mandatory : Message → PublisherPool → Option Err × PublisherPool
  unfolding publish_any
  publish_mandatory msg p = publish_any (record msg { mandatory = true }) p

  -- Publish
  unfoldable pub publish_message : Message → PublisherPool → Option Err × PublisherPool
  unfolding publish_mandatory end_in publish_fields
  publish_message msg p =
      end_in
        (start "pool: publish" (with_span_kind producer (record { kind = none }))
          ∷ publish_fields msg msg.content_type)
        (publish_mandatory msg p)

  -- PublishOptional
  unfoldable pub publish_optional : Message → PublisherPool → Option Err × PublisherPool
  unfolding publish_any end_in publish_fields
  publish_optional msg p =
      end_in (start "pool: publish" (record { kind = none }) ∷ publish_fields msg msg.content_type)
        (publish_any msg p)

  -- The JSON of a value goes into the message, or the error of its encoding ends the operation.
  unfoldable pub with_json :
      (Message → PublisherPool → Option Err × PublisherPool)
      → Message
      → Result String
      → PublisherPool
      → Option Err × PublisherPool
  with_json publish msg (err e) p = (some e, p)
  with_json publish msg (ok b) p = publish (record msg { content_type = json; body = b }) p

  -- PublishJSON, where `marshalled` is what json.Marshal gives for the value.
  unfoldable pub publish_json : Message → Result String → PublisherPool → Option Err × PublisherPool
  unfolding with_json publish_mandatory end_in publish_fields
  publish_json msg marshalled p =
      end_in (start "pool: publish_json" (record { kind = none }) ∷ publish_fields msg json)
        (with_json publish_mandatory msg marshalled p)

  -- PublishJSONOptional
  unfoldable pub publish_json_optional :
      Message → Result String → PublisherPool → Option Err × PublisherPool
  unfolding with_json publish_any end_in publish_fields
  publish_json_optional msg marshalled p =
      end_in (start "pool: publish_json" (record { kind = none }) ∷ publish_fields msg json)
        (with_json publish_any msg marshalled p)

  -- Gauges
  unfoldable pub pool_gauges : PublisherPool → Dict ℕ
  pool_gauges p =
      ("active", o.num_active p.events)
      ∷ ("idle", o.num_idle p.events)
      ∷ ("destroyed", o.destroyed_count p.events)
      ∷ ("max_total", max_total)
      ∷ ("max_idle", max_idle)
      ∷ ("min_idle", 0)
      ∷ []
