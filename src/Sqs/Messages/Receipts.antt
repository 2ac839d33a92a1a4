-- ===== src/Sqs/Messages/Receipts.antt =====
-- Receipt handles in internal/services/aws/sqs/handler.go: `deleteReceiptHandle`.
use emulate.Prelude.{Bool, String, string_eq, ◌==◌}
use emulate.Prelude.Int.{int_eq}
use emulate.Store.Value.{Fields}
use emulate.Sqs.Fields.{string_field}
use emulate.Sqs.State.{Env, State}

module _ (env : Env) where
  -- The message has the receipt handle.
  abbrev pub holds : String → Fields → Bool
  holds receipt message = string_field env.platform message "receipt_handle" == receipt
