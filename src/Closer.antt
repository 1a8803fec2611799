-- ===== src/Closer.antt =====
-- The closing of a file or a body (closer/closer.go).
use go_o11y.Prelude.{Option, none, some}
use go_o11y.Errors.{Err}

-- ErrorHandler: the error of Close is kept if there is none yet.
unfoldable pub error_handler : Option Err → Option Err → Option Err
error_handler closed none = closed
error_handler closed (some e) = some e
