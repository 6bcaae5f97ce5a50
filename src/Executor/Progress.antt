-- ===== src/Executor/Progress.antt =====
-- The walk of an execution through the entries of its flow.
use authust.Prelude.{
  ℕ, zero, suc, ◌+◌, ◌≤◌, ◌<◌, true, false, none, some, List, [], ◌∷◌, ◌≡◌, ◌↔◌, ◌⊎◌, inl, inr,
  refl, ap, arith, length, get_elem?, Option-cases,
}
use native.Mathlib.Decide.{dec_lt}
use authust.Prelude.Res.{ok}
use authust.Model.Flow.{FlowEntry}
use authust.Executor.State.{FlowExecution}
use authust.Executor.Entries.{get_entry, complete_current}

-- The current entry exists.
abbrev pub IsInBounds : FlowExecution → Type 0
IsInBounds e = e.current_entry_idx < length e.flow.entries

pub get_elem?-lt {ℓ} :
    {A : Type ℓ} (xs : List A) (i : ℕ) → i < length xs → (a : A) × (get_elem? xs i ≡ some a)
get_elem?-lt [] i h = absurd (omega arith)
get_elem?-lt (x ∷ xs) zero h = (x, refl)
get_elem?-lt (x ∷ xs) (suc i) h = get_elem?-lt xs i (omega arith)

lt-get_elem? {ℓ} :
    {A : Type ℓ} (xs : List A) (i : ℕ) {a : A} → get_elem? xs i ≡ some a → i < length xs
lt-get_elem? [] i h = cc
lt-get_elem? (x ∷ xs) zero h = omega arith
lt-get_elem? (x ∷ xs) (suc i) h = omega (arith, lt-get_elem? xs i h)

le-get_elem? {ℓ} : {A : Type ℓ} (xs : List A) (i : ℕ) → get_elem? xs i ≡ none → length xs ≤ i
le-get_elem? [] i h = omega arith
le-get_elem? (x ∷ xs) zero h = cc
le-get_elem? (x ∷ xs) (suc i) h = omega (arith, le-get_elem? xs i h)

-- `get_entry` does not panic on an execution in bounds.
pub get_entry-ok :
    (e : FlowExecution) → IsInBounds e → (entry : FlowEntry) × (get_entry e ≡ ok entry)
unfolding get_entry
get_entry-ok e h =
    let (entry, got) = get_elem?-lt e.flow.entries e.current_entry_idx h in (entry, rw got)

-- Completing an entry keeps the current one within the entries of the flow.
pub complete_current-IsInBounds :
    (e : FlowExecution) → IsInBounds e → IsInBounds (complete_current e)
unfolding complete_current
complete_current-IsInBounds e h =
    elim (Option-cases (get_elem? e.flow.entries (e.current_entry_idx + 1))) [
      | inl last ↦ rw last h
      | inr (entry, more) ↦ rw more (lt-get_elem? e.flow.entries (e.current_entry_idx + 1) more)
    ]

-- The two branches of `complete_current`.
pub complete_current-more :
    (e : FlowExecution)
    → e.current_entry_idx + 1 < length e.flow.entries
    → complete_current e ≡ record e { current_entry_idx = e.current_entry_idx + 1 }
unfolding complete_current
complete_current-more e h =
    let (entry, got) = get_elem?-lt e.flow.entries (e.current_entry_idx + 1) h in rw got

pub complete_current-last :
    (e : FlowExecution)
    → length e.flow.entries ≤ e.current_entry_idx + 1
    → complete_current e ≡ record e { is_completed = true }
unfolding complete_current
complete_current-last e h =
    elim (Option-cases (get_elem? e.flow.entries (e.current_entry_idx + 1))) [
      | inl last ↦ rw last
      | inr (entry, more) ↦
          absurd (omega (arith, lt-get_elem? e.flow.entries (e.current_entry_idx + 1) more))
    ]

-- `n` completions in a row.
unfoldable pub complete_times : ℕ → FlowExecution → FlowExecution
complete_times zero e = e
complete_times (suc n) e = complete_times n (complete_current e)

complete_times-completed :
    (n : ℕ) (e : FlowExecution) → e.is_completed ≡ true → (complete_times n e).is_completed ≡ true
unfolding complete_times
complete_times-completed zero e h = h
complete_times-completed (suc n) e h =
    complete_times-completed n (complete_current e) (kept (Option-cases _))
  where
    kept :
        (get_elem? e.flow.entries (e.current_entry_idx + 1) ≡ none)
          ⊎ ((a : FlowEntry) × (get_elem? e.flow.entries (e.current_entry_idx + 1) ≡ some a))
        → (complete_current e).is_completed ≡ true
    kept (inl last) =
        rw (complete_current-last e (le-get_elem? e.flow.entries (e.current_entry_idx + 1) last))
    kept (inr (entry, more)) =
        rw (complete_current-more e (lt-get_elem? e.flow.entries (e.current_entry_idx + 1) more)) h

-- An execution whose current entry exists and that is not completed is completed after `n` calls of
-- `complete_current` exactly when `n` reaches the end of its flow.
pub complete_times_iff :
    (n : ℕ) (e : FlowExecution)
    → IsInBounds e
    → e.is_completed ≡ false
    → ((complete_times n e).is_completed ≡ true) ↔ (length e.flow.entries ≤ e.current_entry_idx + n)
unfolding complete_times
complete_times_iff zero e b h = (λ t. cc, λ t. absurd (omega arith))
complete_times_iff (suc n) e b h = elim (dec_lt (e.current_entry_idx + 1) (length e.flow.entries)) [
  | yes more ↦
      let next : FlowExecution = record e { current_entry_idx = e.current_entry_idx + 1 } in
      let (there, back) = complete_times_iff n next more h in
      let step : complete_times (suc n) e ≡ complete_times n next =
        ap (complete_times n) (complete_current-more e more) in
      rw step (λ t. omega (arith, there t), λ t. back (omega arith))
  | no last ↦
      let end : FlowExecution = record e { is_completed = true } in
      let step : complete_times (suc n) e ≡ complete_times n end =
        ap (complete_times n) (complete_current-last e (omega arith)) in
      rw step (λ t. omega arith, λ t. complete_times-completed n end refl)
]

-- Completing an entry leaves the context alone.
pub complete_current-context : (e : FlowExecution) → (complete_current e).context ≡ e.context
unfolding complete_current
complete_current-context e = ground arith
