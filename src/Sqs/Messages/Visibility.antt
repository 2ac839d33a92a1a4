-- ===== src/Sqs/Messages/Visibility.antt =====
-- `reserveVisibleMessage` of internal/services/aws/sqs/handler.go: what it stores and returns.
pub mod Traffic
pub mod Timeout
pub mod Selection
use emulate.Prelude.{
  ◌≡◌, ◌≢◌, ◌⊎◌, refl, sym, inl, inr, ap, Bool, true, false, Option, none, some, List, [], ◌∷◌, ℕ,
  zero, suc, arith, Option-cases, Bool-cases, String, string_eq, ◌==◌, if◌then◌else◌,
}
use text.Mathlib.TextEquality.{eq_iff}
use emulate.Prelude.Int.{ℤ, pos, int_eq, int_less, succ}
use emulate.Prelude.Int64.{after_seconds}
use emulate.Prelude.Assoc.{lookup, lookup-put}
use emulate.Store.Value.{
  Value, Fields, Formats, str, int, end, field, get_field, set_field, patch_record, clone_record,
  get_or_nil,
}
use emulate.Store.Value.Laws.{get_field-set_field, get_field-patch_record, clone_record-eq}
use emulate.Store.Collection.{Collection, apply_patch, update_func, apply_result}
use emulate.Store.Collection.Mirror.{IsNamed}
use emulate.Store.Collection.Invariant.{IsValid}
use emulate.Sqs.Fields.{int_field, int64_field, int_value}
use emulate.Sqs.State.{Env, State}
use emulate.Sqs.Messages.{updated, reservation, reserve_visible_message}

module _ (env : Env) where
  visible_after-eq :
      (item : Fields) (n : ℤ)
      → get_field "visible_after" item ≡ some (int n)
      → int64_field env.platform item "visible_after" ≡ n
  unfolding int64_field int_value
  visible_after-eq item n h = ground arith

  reservation-some :
      (now timeout : ℤ) (receipt : String) (current patch : Fields)
      → reservation env now timeout receipt current ≡ some patch
      → (int_less now (int64_field env.platform current "visible_after") ≡ false)
        × (get_field "visible_after" patch ≡ some (int (after_seconds now timeout)))
  unfolding reservation get_field set_field
  reservation-some now timeout receipt current patch h = ground arith

  reservation-none :
      (now timeout : ℤ) (receipt : String) (current : Fields)
      → reservation env now timeout receipt current ≡ none
      → int_less now (int64_field env.platform current "visible_after") ≡ true
  unfolding reservation
  reservation-none now timeout receipt current h = ground arith

  -- The stored record after a patch with a time of visibility.
  patched_visible_after :
      (stamp : String) (existing patch : Fields) (n : ℤ)
      → get_field "visible_after" patch ≡ some (int n)
      → int64_field env.platform
          (set_field "updated_at" (str stamp) (patch_record (clone_record existing) patch))
          "visible_after"
        ≡ n
  patched_visible_after stamp existing patch n h = visible_after-eq _ n (
      ground (
        arith,
        clone_record-eq existing,
        get_field-set_field "updated_at" "visible_after" (str stamp) (patch_record existing patch),
        get_field-patch_record "visible_after" existing patch,
      ))

  patched_id :
      (stamp : String) (existing patch : Fields) (id : ℤ)
      → IsNamed id existing
      → int_field env.platform
          (set_field "updated_at" (str stamp) (patch_record (clone_record existing) patch))
          "id"
        ≡ id
  unfolding int_field int_value
  patched_id stamp existing patch id h = ground (
    arith,
    clone_record-eq existing,
    get_field-set_field "updated_at" "id" (str stamp) (patch_record existing patch),
    get_field-patch_record "id" existing patch,
  )

  -- A reservation that succeeded: of the message with the id that `message` has.
  pub record Reserved (now timeout : ℤ) (id : ℤ) (s t : State) (out : Fields) : Type 0 where
    pub existing : Fields
    pub stored : Fields
    pub found : lookup id s.messages.items ≡ some existing
    pub visible : int_less now (int64_field env.platform existing "visible_after") ≡ false
    pub until : int64_field env.platform stored "visible_after" ≡ after_seconds now timeout
    pub named : int_field env.platform out "id" ≡ id
    pub items :
        (j : ℤ)
        → lookup j t.messages.items ≡ (if j == id then some stored else lookup j s.messages.items)
    pub auto_id : t.messages.auto_id ≡ s.messages.auto_id

  -- `reserveVisibleMessage` gives nothing and keeps the messages, or it stores the message that is
  -- there, if it is visible, as one that is visible again after the timeout.
  pub reserve-cases :
      (message : Fields) (now timeout : ℤ) (s : State)
      → IsValid env.formats s.messages
      → ((reserve_visible_message env message now timeout s).0 ≡ none)
          × ((reserve_visible_message env message now timeout s).1.messages ≡ s.messages)
          × ((existing : Fields)
              → lookup (int_field env.platform message "id") s.messages.items ≡ some existing
              → int_less now (int64_field env.platform existing "visible_after") ≡ true)
        ⊎ (out : Fields) × ((reserve_visible_message env message now timeout s).0 ≡ some out)
          × Reserved now timeout
              (int_field env.platform message "id")
              s
              (reserve_visible_message env message now timeout s).1
              out
  unfolding reserve_visible_message update_func apply_result updated apply_patch
  reserve-cases message now timeout s v =
      let id = int_field env.platform message "id" in
      let receipt = env.sources.receipt_handle s.tick in
      let stamp = env.sources.timestamp s.tick in
      elim (Option-cases (lookup id s.messages.items)) [
        | inl absent ↦ inl (rw (absent, update_func) (refl, refl, λ existing found. cc))
        | inr (existing, found) ↦
            elim (Option-cases (reservation env now timeout receipt (clone_record existing))) [
              | inl refused ↦
                  let hidden =
                    reservation-none now timeout receipt existing
                      (rw (clone_record-eq existing) at refused) in
                  inl (
                    rw (found, refused, update_func)
                      (
                        refl,
                        refl,
                        λ other same. let eq : other ≡ existing = ground arith in rw (eq) hidden,
                      ))
              | inr (patch, taken) ↦
                  let (visible, until) =
                    reservation-some now timeout receipt existing patch
                      (rw (clone_record-eq existing) at taken) in
                  let stored =
                    set_field "updated_at" (str stamp)
                      (patch_record (clone_record existing) patch) in
                  inr (
                    rw (found, taken, update_func)
                      (
                        clone_record stored,
                        refl,
                        record {
                          existing = existing;
                          stored = stored;
                          found = found;
                          visible = visible;
                          until = patched_visible_after stamp existing patch _ until;
                          named =
                              rw (clone_record-eq stored)
                                (patched_id stamp existing patch id (v.named id existing found));
                          items = λ j. lookup-put id j stored s.messages.items;
                          auto_id = refl;
                        },
                      ))
            ]
      ]
