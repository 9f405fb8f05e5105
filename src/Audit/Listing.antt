-- ===== src/Audit/Listing.antt =====
-- (*Store).List of internal/audit/audit.go.
use mathlib.Core.List.{Perm}
use mathlib.Core.Path.{subst}
use terraform_provider_viett.Prelude.{
  ℕ, zero, suc, ◌≤◌, ◌<◌, ◌≡◌, refl, ap, ◌∙◌, ◌⊎◌, none, List, [], ◌∷◌, ◌++◌, arith, length, leb,
  if◌then◌else◌,
}
use terraform_provider_viett.Go.{ok, ℤ, pos, negsuc}
use terraform_provider_viett.Database.{Event, Database, run}
use terraform_provider_viett.Database.Sql.{
  IsDescending, order_desc, order_desc-IsDescending, order_desc-perm, length-order_desc, take,
  take_rest,
}
use terraform_provider_viett.Audit.{effective_limit, list_events}

-- the cap of an answer: an asked limit of 1 to 1000, and 100 for any other
abbrev pub IsCap : ℤ → ℕ → Type 0
IsCap (negsuc n) cap = cap ≡ 100
IsCap (pos n) cap =
    ((1 ≤ n) × (n ≤ 1000) × (cap ≡ n)) ⊎ ((n ≡ 0) × (cap ≡ 100)) ⊎ ((1000 < n) × (cap ≡ 100))

effective_limit-IsCap : (limit : ℤ) → IsCap limit (effective_limit limit)
unfolding effective_limit
effective_limit-IsCap (negsuc n) = refl
effective_limit-IsCap (pos n) = ground arith

-- how many events an answer has, of all that there are
abbrev pub count_within : ℕ → ℕ → ℕ
count_within cap all = if leb all cap then all else cap

length-take_within :
    {A : Type 0} (n : ℕ) (xs : List A) → length (take n xs) ≡ count_within n (length xs)
length-take_within zero xs = ground arith
length-take_within (suc n) [] = ground arith
length-take_within (suc n) (x ∷ xs) = ground (arith, length-take_within n xs)

-- If its query does not fail, List returns the latest events, the latest first: its answer and the
-- events that it leaves out are together the whole log, in descending order of their times. It returns every
-- event if there are no more than the cap, and else as many as the cap. The cap is the limit that is asked
-- for where that is 1 to 1000, and 100 for every other limit, negative ones included.
pub list_events_lem :
    (limit : ℤ) (db : Database)
    → db.faults db.statements ≡ none
    → (events : List Event) × (rest : List Event) × (cap : ℕ) × ((list_events limit db).0
        ≡ ok events)
      × Perm (events ++ rest) db.tables.audit_events
      × IsDescending (λ (e : Event). e.created_at) (events ++ rest)
      × IsCap limit cap
      × (length events ≡ count_within cap (length db.tables.audit_events))
unfolding list_events
list_events_lem limit db h =
    let created = λ (e : Event). e.created_at in
    let log = db.tables.audit_events in
    let sorted = order_desc created log in
    let n = effective_limit limit in
    let (rest, split) = take_rest n sorted in
    (
      take n sorted,
      rest,
      n,
      rw (h, run),
      subst (λ es. Perm es log) split (order_desc-perm created log),
      subst (λ es. IsDescending created es) split (order_desc-IsDescending created log),
      effective_limit-IsCap limit,
      length-take_within n sorted ∙ ap (count_within n) (length-order_desc created log),
    )
