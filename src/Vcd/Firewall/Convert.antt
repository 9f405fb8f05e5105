-- ===== src/Vcd/Firewall/Convert.antt =====
-- The loops that convert lists of texts, and the kinds of IDs, for the endpoints of firewall rules.
use Prim.Native.String.{◌++◌ as append_text}
use mathlib.Core.Path.{subst}
use text.Mathlib.TextLemmas.{nil-append, cons-append}
use terraform_provider_viett.Prelude.{
  ◌≡◌, refl, sym, ap, ◌∙◌, String, List, [], ◌∷◌, ◌++◌, arith, All, if◌then◌else◌,
}
use terraform_provider_viett.Go.{Result, ok, err}
use terraform_provider_viett.Vcd.Firewall.{split, dash, ObjectKind, object_kind, join, each}
use terraform_provider_viett.Vcd.Firewall.Endpoints.{same_kind, ids_of_kind}

pub split-vnic : (t : String) → split dash (append_text "vnic-" t) ≡ "vnic" ∷ split dash t
unfolding split
split-vnic t = rw (cons-append, cons-append, cons-append, cons-append, cons-append, nil-append)

pub join-parts :
    (r : Result String) (rest : Result (List String)) (ys : List String)
    → join r rest ≡ ok ys
    → (y : String) × (zs : List String) × (r ≡ ok y) × (rest ≡ ok zs) × (ys ≡ y ∷ zs)
unfolding join
join-parts (err e) rest ys h = absurd (ground (arith, h))
join-parts (ok y) (err e) ys h = absurd (ground (arith, h))
join-parts (ok y) (ok zs) ys h = (y, zs, refl, refl, ground (arith, h))

pub nothing_converted : (ys : List String) → ok [] ≡ ok ys → [] ≡ ys
nothing_converted ys h = ground (arith, h)

-- what each of the results fulfils
pub each-All :
    (f : String → Result String) (P : String → Type 0)
    → ((x y : String) → f x ≡ ok y → P y)
    → (xs ys : List String) → each f xs ≡ ok ys
    → All P ys
unfolding each
each-All f P h [] ys e = subst (All P) (nothing_converted ys e) tt
each-All f P h (x ∷ xs) ys e =
    let (y, zs, now, later, same) = join-parts (f x) (each f xs) ys e in
    subst (All P) (sym same) (h x y now, each-All f P h xs zs later)

-- a conversion that another one undoes
pub each-inverse :
    (f g : String → Result String)
    → ((x y : String) → f x ≡ ok y → g y ≡ ok x)
    → (xs ys : List String) → each f xs ≡ ok ys
    → each g ys ≡ ok xs
unfolding each
each-inverse f g h [] ys e = ap (each g) (sym (nothing_converted ys e))
each-inverse f g h (x ∷ xs) ys e =
    let (y, zs, now, later, same) = join-parts (f x) (each f xs) ys e in
    ap (each g) same
    ∙ ap (λ r. join r (each g zs)) (h x y now)
    ∙ ap (join (ok x)) (each-inverse f g h xs zs later)

pub ids_of_kind-append :
    (kind : ObjectKind) (xs ys : List String)
    → ids_of_kind kind (xs ++ ys) ≡ ids_of_kind kind xs ++ ids_of_kind kind ys
unfolding ids_of_kind
ids_of_kind-append kind [] ys = refl
ids_of_kind-append kind (x ∷ xs) ys = ground (arith, ids_of_kind-append kind xs ys)

abbrev pub HasKind : ObjectKind → String → Type 0
HasKind kind id = object_kind id ≡ kind

-- the IDs of one kind, of a list whose IDs are all of one kind
pub ids_of_one_kind :
    (wanted kind : ObjectKind) (ids : List String)
    → All (HasKind kind) ids
    → ids_of_kind wanted ids ≡ (if same_kind wanted kind then ids else [])
unfolding ids_of_kind
ids_of_one_kind wanted kind [] h = ground arith
ids_of_one_kind wanted kind (x ∷ xs) h = ground (arith, h.0, ids_of_one_kind wanted kind xs h.1)
