-- ===== src/Sched/Admission/Expiry.antt =====
-- What the history of tags in sched/scheduler/stateful_scheduler.go rules out.
use scoot.Base.{
  ℕ, ◌≡◌, ◌≢◌, ◌⊎◌, refl, ap, subst, inl, inr, String, true, false, ◌||◌, none, List, [], ◌∷◌, ◌++◌,
  str_eq, eq_iff, eq_refl, arith, Dict, lookup, insert, lookup-insert, if◌then◌else◌, Bool-cases,
  Option-cases,
}
use scoot.Sched.Definitions.{JobDefinition}
use scoot.Sched.Admission.{
  Limits, string_in_slice, or_empty, check_limits, history_key, is_last, is_expired, check_tag,
  check_job,
}

-- One request after the other, with the requestor map of its time.
abbrev pub check_jobs :
    Limits → Dict (List String) → List (Dict (List ℕ) × JobDefinition) → Dict (List String)
check_jobs limits history [] = history
check_jobs limits history ((requestors, def) ∷ rest) =
    check_jobs limits (check_job limits requestors history def).0 rest

string_in_slice-append :
    (a b : String) (tags : List String)
    → string_in_slice a (tags ++ (b ∷ [])) ≡ (string_in_slice a tags || str_eq b a)
string_in_slice-append a b [] = ground arith
string_in_slice-append a b (t ∷ tags) = ground (arith, string_in_slice-append a b tags)

is_last-append : (a b : String) (tags : List String) → is_last a (tags ++ (b ∷ [])) ≡ str_eq b a
is_last-append a b [] = refl
is_last-append a b (t ∷ []) = refl
is_last-append a b (t ∷ u ∷ tags) = is_last-append a b (u ∷ tags)

-- An accepted tag leaves an expired one expired.
is_expired-append :
    (a b : String) (tags : List String)
    → is_expired a tags ≡ true
    → is_expired b tags ≡ false
    → is_expired a (tags ++ (b ∷ [])) ≡ true
is_expired-append a b tags h k =
    rw (string_in_slice-append a b tags, is_last-append a b tags)
      (elim (Bool-cases (str_eq b a)) [
        | inl e ↦
            let same : b ≡ a = (eq_iff b a).0 e in
            let clash : is_expired a tags ≡ false = subst (λ t. is_expired t tags ≡ false) same k in
            absurd (ground arith)
        | inr e ↦ ground arith
      ])

-- The tag of the request is expired under the key.
abbrev pub Expired : Dict (List String) → String → String → Type 0
Expired history key tag = is_expired tag (or_empty (lookup key history)) ≡ true

-- What an accepted request adds to the history.
abbrev added : Dict (List String) → JobDefinition → Dict (List String)
added history def =
    insert (history_key def) (or_empty (lookup (history_key def) history) ++ (def.tag ∷ [])) history

added-lookup :
    (history : Dict (List String)) (def : JobDefinition) (key : String)
    → or_empty (lookup key (added history def)) ≡ (
        if str_eq (history_key def) key
        then or_empty (lookup key history) ++ (def.tag ∷ [])
        else or_empty (lookup key history))
added-lookup history def key =
    rw
      (lookup-insert (history_key def) key
        (or_empty (lookup (history_key def) history) ++ (def.tag ∷ [])) history)
      (elim (Bool-cases (str_eq (history_key def) key)) [
        | inr e ↦ rw e refl
        | inl e ↦
            let same : history_key def ≡ key = (eq_iff (history_key def) key).0 e in
            rw e (ap (λ k. or_empty (lookup k history) ++ (def.tag ∷ [])) same)
      ])

-- A request leaves the history alone, or adds a tag that is not expired.
check_job-history :
    (limits : Limits) (requestors : Dict (List ℕ)) (history : Dict (List String))
    (def : JobDefinition)
    → ((check_job limits requestors history def).0 ≡ history)
      ⊎ (((check_job limits requestors history def).0 ≡ added history def)
          × (is_expired def.tag (or_empty (lookup (history_key def) history)) ≡ false))
unfolding check_job check_tag
check_job-history limits requestors history def =
    elim (Option-cases (check_limits limits requestors def)) [
      | inr (r, e) ↦ inl (rw (e, check_job) refl)
      | inl e ↦ elim (Bool-cases (str_eq def.basis "")) [
        | inl f ↦ inl (rw (e, f, check_job, check_tag) refl)
        | inr f ↦
            elim (Bool-cases (is_expired def.tag (or_empty (lookup (history_key def) history)))) [
              | inl g ↦ inl (rw (e, f, g, check_job, check_tag) refl)
              | inr g ↦ inr (rw (e, f, g, check_job, check_tag) refl, g)
            ]
      ]
    ]

-- What requests keep: the tag is in the history of the key, or expired there.
abbrev Listed : Dict (List String) → String → String → Type 0
Listed history key tag = string_in_slice tag (or_empty (lookup key history)) ≡ true

added-Listed :
    (history : Dict (List String)) (def : JobDefinition) (key tag : String)
    → Listed history key tag
    → Listed (added history def) key tag
added-Listed history def key tag h =
    rw (added-lookup history def key)
      (ground (arith, string_in_slice-append tag def.tag (or_empty (lookup key history))))

added-Expired :
    (history : Dict (List String)) (def : JobDefinition) (key tag : String)
    → is_expired def.tag (or_empty (lookup (history_key def) history)) ≡ false
    → Expired history key tag
    → Expired (added history def) key tag
added-Expired history def key tag f h = elim (Bool-cases (str_eq (history_key def) key)) [
  | inr e ↦ rw (added-lookup history def key, e) h
  | inl e ↦
      rw (added-lookup history def key, e)
        (is_expired-append tag def.tag (or_empty (lookup key history)) h (
          subst (λ k. is_expired def.tag (or_empty (lookup k history)) ≡ false)
            ((eq_iff (history_key def) key).0 e) f))
]

module _ (limits : Limits) (key tag : String) where
  check_jobs-Listed :
      (history : Dict (List String)) (rs : List (Dict (List ℕ) × JobDefinition))
      → Listed history key tag
      → Listed (check_jobs limits history rs) key tag
  check_jobs-Listed history [] h = h
  check_jobs-Listed history ((requestors, def) ∷ rs) h =
      check_jobs-Listed (check_job limits requestors history def).0 rs
        (elim (check_job-history limits requestors history def) [
          | inl e ↦ rw e h
          | inr (e, f) ↦ rw e (added-Listed history def key tag h)
        ])

  check_jobs-Expired :
      (history : Dict (List String)) (rs : List (Dict (List ℕ) × JobDefinition))
      → Expired history key tag
      → Expired (check_jobs limits history rs) key tag
  check_jobs-Expired history [] h = h
  check_jobs-Expired history ((requestors, def) ∷ rs) h =
      check_jobs-Expired (check_job limits requestors history def).0 rs
        (elim (check_job-history limits requestors history def) [
          | inl e ↦ rw e h
          | inr (e, f) ↦ rw e (added-Expired history def key tag f h)
        ])

-- An accepted request with a basis is added to the history.
accepted :
    (limits : Limits) (requestors : Dict (List ℕ)) (history : Dict (List String))
    (def : JobDefinition)
    → (check_job limits requestors history def).1 ≡ none
    → str_eq def.basis "" ≡ false
    → (check_job limits requestors history def).0 ≡ added history def
unfolding check_job check_tag
accepted limits requestors history def h b = ground arith

refused :
    (limits : Limits) (requestors : Dict (List ℕ)) (history : Dict (List String))
    (def : JobDefinition)
    → str_eq def.basis "" ≡ false
    → Expired history (history_key def) def.tag
    → (check_job limits requestors history def).1 ≢ none
unfolding check_job check_tag
refused limits requestors history def b h k = ground arith

-- Once a request with a basis was accepted, and later one with a basis and another tag for the same key of
-- requestor and basis, no request with a basis for that key with the first tag is accepted any more, whatever
-- requests come in between. Requests without a basis, of which no history is kept, are not of this kind.
pub check_jobs-refuses :
    (limits : Limits) (history : Dict (List String)) (rs ss : List (Dict (List ℕ) × JobDefinition))
    (m₁ m₂ m₃ : Dict (List ℕ)) (old new again : JobDefinition)
    → str_eq old.basis "" ≡ false
    → str_eq new.basis "" ≡ false
    → str_eq again.basis "" ≡ false
    → history_key new ≡ history_key old
    → history_key again ≡ history_key old
    → again.tag ≡ old.tag
    → str_eq new.tag old.tag ≡ false
    → (check_job limits m₁ history old).1 ≡ none
    → (check_job limits m₂ (check_jobs limits (check_job limits m₁ history old).0 rs) new).1 ≡ none
    → let h =
        (check_job limits m₂ (check_jobs limits (check_job limits m₁ history old).0 rs) new).0 in
      (check_job limits m₃ (check_jobs limits h ss) again).1 ≢ none
check_jobs-refuses limits history rs ss m₁ m₂ m₃ old new again b₁ b₂ b₃ k₂ k₃ t d a₁ a₂ =
    let key = history_key old in
    let h₁ = check_jobs limits (check_job limits m₁ history old).0 rs in
    let first : Listed (check_job limits m₁ history old).0 key old.tag =
      rw (accepted limits m₁ history old a₁ b₁, added-lookup history old key, eq_refl key)
        (ground (
          arith,
          string_in_slice-append old.tag old.tag (or_empty (lookup key history)),
          eq_refl old.tag,
        )) in
    let listed : Listed h₁ key old.tag =
      check_jobs-Listed limits key old.tag (check_job limits m₁ history old).0 rs first in
    let same : str_eq (history_key new) key ≡ true = (eq_iff (history_key new) key).1 k₂ in
    let expired : Expired (check_job limits m₂ h₁ new).0 key old.tag =
      rw (accepted limits m₂ h₁ new a₂ b₂, added-lookup h₁ new key, same)
        (ground (
          arith,
          string_in_slice-append old.tag new.tag (or_empty (lookup key h₁)),
          is_last-append old.tag new.tag (or_empty (lookup key h₁)),
        )) in
    let kept = check_jobs-Expired limits key old.tag (check_job limits m₂ h₁ new).0 ss expired in
    refused limits m₃ (check_jobs limits (check_job limits m₂ h₁ new).0 ss) again b₃
      (rw (k₃, t) kept)
