-- ===== src/Tests/Queues.antt =====
-- The theorems of the SQS handler at concrete inputs.
use emulate.Prelude.{
  ℕ, zero, suc, ◌≡◌, ◌≢◌, refl, sym, ◌∙◌, ap, ◌↔◌, none, some, true, [], ◌∷◌, map, filter, take,
  contains, All, String, string_eq, ◌==◌, arith,
}
use emulate.Prelude.Int.{ℤ, pos, negsuc, int_eq, int_less, max_int}
use emulate.Prelude.Int64.{after_seconds, after_seconds-eq}
use emulate.Prelude.Assoc.{lookup, is_some}
use emulate.Store.Value.{Value, Fields, str, end, field, get_field, numeric_id}
use emulate.Store.Collection.{new_collection, insert, insert_at, chosen_id, own_id}
use emulate.Store.Collection.Fresh.{IsFresh, insert-IsFresh}
use emulate.Store.Collection.Invariant.{new_collection-IsValid}
use emulate.Sqs.Fields.{Platform, int_field}
use emulate.Sqs.Params.{
  Params, run, rounds, name_step, tag_step, attribute_step, message_attribute_step,
  indexed_batch_entry_prefixes,
}
use emulate.Sqs.Params.Termination.{PrintsApart, loops_end}
use emulate.Sqs.State.{Sources, Env, State}
use emulate.Sqs.Messages.{
  new_message, enqueue_message, messages_of, receive, clamped, delete_receipt_handle,
}
use emulate.Sqs.Messages.Records.{IsSound, enqueue_message-IsSound}
use emulate.Sqs.Messages.Listed.{id_of}
use emulate.Sqs.Messages.Visibility.Selection.{visible_at, receive-eq}
use emulate.Sqs.Messages.Visibility.Timeout.{quiet, deleted, receive_hides}
use emulate.Sqs.Batch.{accepted, validate_batch_request, entry_params}
use emulate.Sqs.Batch.Validation.{FitsBatch, IsAllowed, validate_batch_request-accepted}

-- A number in strokes.
abbrev pub strokes : ℕ → String
strokes zero = ""
strokes (suc n) = String.◌∷◌ "|" (strokes n)

abbrev stroke_count : String → ℕ
stroke_count String.[] = 0
stroke_count (String.◌∷◌ c s) = suc (stroke_count s)

abbrev pub print_int : ℤ → String
print_int (pos n) = strokes n
print_int (negsuc n) = "-"

abbrev pub sprint_text : Value → String
sprint_text (str s) = s
sprint_text v = "?"

abbrev platform : Platform
platform = record {
  itoa = print_int;
  atoi = λ s. none;
  sprint = sprint_text;
  format_float = λ bits. "0";
  int_of_float = λ bits. pos 0;
  equal_fold = λ s t. s == t;
  md5_sum_hex = λ bytes. "d41d";
  base64_decoders = [];
}

abbrev sources : Sources
sources = record {
  now_millis = λ tick. pos 5;
  timestamp = λ tick. "now";
  message_id = strokes;
  receipt_handle = strokes;
}

abbrev pub env : Env
env = record {
  formats = record {
    sprint = sprint_text;
    whole_float = λ bits. none;
    parse_int64 = λ digits. none;
  };
  platform = platform;
  sources = sources;
  base_url = "http://localhost/";
  account_id = "";
  region = "";
}

abbrev pub start : State
start = record {
  queues = new_collection ("queue_name" ∷ "queue_url" ∷ []);
  messages = new_collection ("queue_name" ∷ []);
  tick = 0;
}

abbrev pub jobs : Fields
jobs = field "queue_name" (str "jobs") end

-- A queue with one message.
abbrev pub sent_one : State
sent_one = (enqueue_message env jobs "hello" end (pos 0) start).1

pub start-IsSound : IsSound env start
start-IsSound = (
  new_collection-IsValid env.formats ("queue_name" ∷ "queue_url" ∷ []),
  new_collection-IsValid env.formats ("queue_name" ∷ []),
)

pub sent_one-IsSound : IsSound env sent_one
sent_one-IsSound = enqueue_message-IsSound env jobs "hello" end (pos 0) start start-IsSound

absurd-none : {A : Type 0} {P : Type 0} {a : A} → none ≡ some a → P
absurd-none e = cc

pub start-IsFresh : IsFresh start.messages
unfolding new_collection lookup
start-IsFresh = record { positive = refl; ids = λ id item found. absurd-none found }

first_id :
    chosen_id env.formats start.messages (new_message env jobs "hello" end (pos 0) 0) ≢ pos max_int
unfolding new_collection chosen_id own_id get_field numeric_id new_message
first_id = cc

sent_one-IsFresh : IsFresh sent_one.messages
unfolding enqueue_message
sent_one-IsFresh =
    insert-IsFresh env.formats "now" start.messages (new_message env jobs "hello" end (pos 0) 0)
      start-IsFresh first_id

pub indexed : contains "queue_name" sent_one.messages.index_fields ≡ true
unfolding enqueue_message contains insert insert_at new_collection
indexed = refl

until : after_seconds (pos 5) (pos 30) ≡ pos 30005
until = after_seconds-eq 5 30 (omega arith)

ahead : int_less (pos 5) (after_seconds (pos 5) (pos 30)) ≡ true
ahead = rw until refl

-- The state after a receive.
abbrev received_one : State
received_one = (receive env jobs (pos 1) (pos 30) sent_one).1

receive_hides_example :
    All
      (λ out.
        All
          (λ later. int_field platform later "id" ≢ int_field platform out "id")
          (receive env jobs (pos 10) (pos 0) (delete_receipt_handle env jobs "x" received_one).1).0)
      (receive env jobs (pos 1) (pos 30) sent_one).0
receive_hides_example =
    receive_hides env jobs jobs (pos 1) (pos 10) (pos 30) (pos 0) sent_one
      (delete_receipt_handle env jobs "x" received_one).1 sent_one-IsSound sent_one-IsFresh ahead
      (deleted jobs "x" received_one (delete_receipt_handle env jobs "x" received_one).1
        (quiet (delete_receipt_handle env jobs "x" received_one).1))
      ahead

receive-eq_example :
    map (id_of platform) (receive env jobs (pos 1) (pos 30) sent_one).0
    ≡ map
        (id_of platform)
        (take (clamped (pos 1)) (filter (visible_at env (pos 5)) (messages_of env jobs sent_one)))
receive-eq_example = receive-eq env jobs (pos 1) (pos 30) sent_one sent_one-IsSound indexed

stroke_count-strokes : (n : ℕ) → stroke_count (strokes n) ≡ n
stroke_count-strokes zero = refl
stroke_count-strokes (suc n) = ap suc (stroke_count-strokes n)

strokes_apart : PrintsApart platform
strokes_apart i j same =
    sym (stroke_count-strokes i) ∙ ap stroke_count same ∙ stroke_count-strokes j

-- One tag with a value.
abbrev tagged : Params
tagged = ("Tag.|.Key", "team") ∷ ("Tag.|.Value", "a") ∷ []

loops_end_example :
    (is_some (run (name_step platform tagged "Tag") (rounds tagged) 1) ≡ true)
    × (is_some (run (tag_step platform tagged "Tag") (rounds tagged) 1) ≡ true)
    × (is_some (run (attribute_step platform tagged "Tag") (rounds tagged) 1) ≡ true)
    × (is_some (run (message_attribute_step platform tagged "Tag") (rounds tagged) 1) ≡ true)
loops_end_example = loops_end platform tagged "Tag" strokes_apart

-- A batch of two entries with the same id.
abbrev twice : Params
twice =
    ("Entry.|.Id", "a")
    ∷ ("Entry.|.ReceiptHandle", "x")
    ∷ ("Entry.||.Id", "a")
    ∷ ("Entry.||.ReceiptHandle", "y")
    ∷ []

validate_batch_request-accepted_example :
    (validate_batch_request platform twice "Entry" true
      ≡ accepted (indexed_batch_entry_prefixes platform twice "Entry"))
    ↔ FitsBatch twice (indexed_batch_entry_prefixes platform twice "Entry") true
      × IsAllowed []
          (entry_params twice ".Id" (indexed_batch_entry_prefixes platform twice "Entry"))
validate_batch_request-accepted_example =
    validate_batch_request-accepted platform twice "Entry" true
