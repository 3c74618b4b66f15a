-- ===== src/Dispatch/Replay.antt =====
-- A saved admission is replayed as it was decided (current/dispatch_replay.py).
use watershed_memory.Base.{
  ℕ, ◌≡◌, refl, Bool, true, Option, none, some, ok, >>=-eq-ok, List, [], ◌∷◌, all, elem, arith,
  ==_refl,
}
use watershed_memory.Text.{Texts}
use watershed_memory.Delivery.Records.{Codec}
use watershed_memory.Dispatch.Types.{AttentionPolicy}
use watershed_memory.Dispatch.Records.{
  CurrentContext, Replay, Engine, Admission, DispatchDb, check_json,
}
use watershed_memory.Dispatch.Admission.{
  reference_of, due_identities, handled_keys, evaluate_admission, capture_admission, restored,
  restore_admission,
}

-- Every element of a list is among those of a longer one.
all-elem_later :
    (x : ℕ) (xs ys : List ℕ) → all (λ k. elem k xs) ys ≡ true → all (λ k. elem k (x ∷ xs)) ys ≡ true
all-elem_later x xs [] h = refl
all-elem_later x xs (y ∷ ys) h = ground (arith, all-elem_later x xs ys)

all-elem : (xs : List ℕ) → all (λ k. elem k xs) xs ≡ true
all-elem [] = refl
all-elem (x ∷ xs) = ground (arith, all-elem xs, all-elem_later x xs xs)

module _ (texts : Texts) (codec : Codec) (engine : Engine) where
  -- What a captured admission has of its inputs.
  captured :
      (context : CurrentContext) (numeric health : Option CurrentContext) (handled : List ℕ)
      (source : Bool) (replay : Replay)
      → capture_admission texts codec engine context numeric health handled source ≡ ok replay
      → (check_json codec (engine.replay_json replay) 32768 ≡ ok tt)
        × (replay.handled_due_keys ≡ handled)
        × (engine.reference context ≡ ok replay.context)
        × (reference_of texts codec engine numeric ≡ ok replay.numeric)
        × (reference_of texts codec engine health ≡ ok replay.health)
  unfolding capture_admission
  captured context numeric health handled source replay h =
      let (text, e1, k1) = >>=-eq-ok (engine.reference context) _ h in
      let (numeric_text, e2, k2) = >>=-eq-ok (reference_of texts codec engine numeric) _ k1 in
      let (health_text, e3, k3) = >>=-eq-ok (reference_of texts codec engine health) _ k2 in
      let (_, e4, k4) = >>=-eq-ok (check_json codec _ 32768) _ k3 in
      (
        ground (arith, e4, k4),
        ground (arith, k4),
        ground (arith, e1, k4),
        ground (arith, e2, k4),
        ground (arith, e3, k4),
      )

  -- The evidence behind a reference to the context is still there: restoring it gives the context.
  abbrev pub IsKept : DispatchDb → CurrentContext → Type 0
  IsKept db c =
      (text : ℕ) → engine.reference c ≡ ok text → engine.restore db.journal.work text ≡ ok c

  restored-reference_of :
      (db : DispatchDb) (baseline : Option CurrentContext) (text : Option ℕ)
      → ((c : CurrentContext) → baseline ≡ some c → IsKept db c)
      → reference_of texts codec engine baseline ≡ ok text
      → restored texts codec engine db.journal.work text ≡ ok baseline
  unfolding restored
  restored-reference_of db none none kept h = refl
  restored-reference_of db none (some t) kept h = cc
  restored-reference_of db (some c) text kept h =
      let (t, e, k) = >>=-eq-ok (engine.reference c) _ h in
      let back = kept c refl t e in
      let same : some t ≡ text = ground arith in rw (← same, back) refl

  -- An admission that was decided and captured over the same handled checks is restored as it was
  -- decided, its context, its attention and its move, where the reference to its context and those
  -- to its baselines, if it has them, still restore to these and the text of the attention is
  -- within its bound.
  pub restore_admission-capture_admission :
      (db : DispatchDb) (policy : AttentionPolicy) (saved : Admission) (context : CurrentContext)
      (numeric health : Option CurrentContext) (handled : List ℕ) (source : Bool)
      → handled_keys texts codec engine context.base.case_id context.base.evaluated_at db.due
          (due_identities texts codec engine context.reviews)
        ≡ ok handled
      → evaluate_admission texts codec engine context policy numeric health handled
        ≡ ok (saved.attention, saved.move_numeric)
      → capture_admission texts codec engine context numeric health handled source ≡ ok saved.replay
      → check_json codec (engine.attention_json saved.attention) 4096 ≡ ok tt
      → IsKept db context
      → ((c : CurrentContext) → numeric ≡ some c → IsKept db c)
      → ((c : CurrentContext) → health ≡ some c → IsKept db c)
      → restore_admission texts codec engine db saved policy
        ≡ ok (context, saved.attention, saved.move_numeric)
  unfolding restore_admission
  restore_admission-capture_admission db policy saved context numeric health handled source known
        decided capture bounded kept kept_numeric kept_health =
      let (json, keys, e1, e2, e3) =
        captured context numeric health handled source saved.replay capture in
      let first = kept saved.replay.context e1 in
      let second = restored-reference_of db numeric saved.replay.numeric kept_numeric e2 in
      let third = restored-reference_of db health saved.replay.health kept_health e3 in
      rw
        (
          json,
          bounded,
          first,
          second,
          third,
          known,
          keys,
          all-elem handled,
          decided,
          ==_refl (engine.attention_json saved.attention),
        )
        refl
