-- ===== src/Vcd/Filter/Only.antt =====
-- A search by filter of vcd/filter_get.go gives an entity only if it is the only one.
use Prim.Native.String.{◌++◌ as append_text}
use terraform_provider_viett.Prelude.{
  ◌≡◌, refl, sym, ap, ◌∙◌, String, false, Option, none, some, List, [], ◌∷◌, ◌++◌, ◌==◌, arith,
  eq_iff, All, Bool-cases, inl, inr,
}
use terraform_provider_viett.Go.{Failure, plain, Result, ok, err}
use terraform_provider_viett.Vcd.Filter.{
  FilterBlock, Criteria, qt_org_vdc_network, Item, Answer, FilterApi, build_criteria,
}
use terraform_provider_viett.Vcd.Filter.Search.{
  only_item, items_of, kept_answer, of_kind, search_with, get_entity_by_filter, retrieve,
  network_search, get_network_by_filter,
}

only_item-answer :
    (label : String) (items : List Item) (explanation : String) (e : Option Failure) (item : Item)
    → only_item label (items, explanation, e) ≡ ok item
    → (items ≡ item ∷ []) × (e ≡ none)
unfolding only_item
only_item-answer label items explanation (some e) item h = absurd (ground (arith, h))
only_item-answer label [] explanation none item h = absurd (ground (arith, h))
only_item-answer label (i ∷ []) explanation none item h = ground (arith, h)
only_item-answer label (i ∷ j ∷ items) explanation none item h = absurd (ground (arith, h))

kept_answer-one :
    (label kind : String) (found : List Item) (explanation : String) (e : Option Failure)
    (item : Item)
    → only_item label (kept_answer kind found explanation e) ≡ ok item
    → (found ≡ item ∷ []) × (e ≡ none)
unfolding kept_answer only_item
kept_answer-one label kind [] explanation e item h = absurd (ground (arith, h))
kept_answer-one label kind (i ∷ items) explanation e item h =
    only_item-answer label (i ∷ items) explanation e item h

abbrev IsOther : String → Item → Type 0
IsOther kind item = (item.kind == kind) ≡ false

-- the only item of its type in a list
abbrev pub IsOnly : String → List Item → Item → Type 0
IsOnly kind items item =
    (before : List Item) × (after : List Item) × (items ≡ before ++ (item ∷ after))
    × (item.kind ≡ kind)
    × All (IsOther kind) before
    × All (IsOther kind) after

items_of_none :
    (kind : String) (items : List Item) → items_of kind items ≡ [] → All (IsOther kind) items
unfolding items_of
items_of_none kind [] h = tt
items_of_none kind (i ∷ items) h = elim (Bool-cases (i.kind == kind)) [
  | inl e ↦ absurd (ground (arith, h, e))
  | inr e ↦ (e, items_of_none kind items (sym (rw e) ∙ h))
]

one_item : (i j : Item) (items : List Item) → i ∷ items ≡ j ∷ [] → (i ≡ j) × (items ≡ [])
one_item i j items h = ground (arith, h)

items_of-IsOnly :
    (kind : String) (items : List Item) (item : Item)
    → items_of kind items ≡ item ∷ []
    → IsOnly kind items item
unfolding items_of
items_of-IsOnly kind [] item h = absurd (ground (arith, h))
items_of-IsOnly kind (i ∷ items) item h = elim (Bool-cases (i.kind == kind)) [
  | inl e ↦
      let (same, rest) = one_item i item (items_of kind items) (sym (rw e) ∙ h) in
      (
        [],
        items,
        ap (λ j. j ∷ items) same,
        ap (λ j. j.kind) (sym same) ∙ (eq_iff i.kind kind).0 e,
        tt,
        items_of_none kind items rest,
      )
  | inr e ↦
      let (before, after, parts, at, others, behind) =
        items_of-IsOnly kind items item (sym (rw e) ∙ h) in
      (i ∷ before, after, ap (λ rest. i ∷ rest) parts, at, (e, others), behind)
]

of_kind-one :
    (label kind : String) (answer : Answer) (item : Item)
    → only_item label (of_kind kind answer) ≡ ok item
    → (items_of kind answer.0 ≡ item ∷ []) × (answer.2 ≡ none)
unfolding of_kind
of_kind-one label kind (items, explanation, e) item h =
    kept_answer-one label kind (items_of kind items) explanation e item h

module _ {F E : Type 0} (api : FilterApi F E) where
  -- the criteria of the filter, and the item that the search with them gave
  abbrev Selected : (Criteria F → Answer) → String → Option (Result (Criteria F)) → Item → Type 0
  Selected search label built item =
      (criteria : Criteria F) × (built ≡ some (ok criteria))
      × (only_item label (search criteria) ≡ ok item)

  search_with-Selected :
      (search : Criteria F → Answer) (label : String) (built : Option (Result (Criteria F)))
      (item : Item)
      → search_with api search label built ≡ some (ok item)
      → Selected search label built item
  unfolding search_with
  search_with-Selected search label none item h = absurd (ground (arith, h))
  search_with-Selected search label (some (err e)) item h = absurd (ground (arith, h))
  search_with-Selected search label (some (ok criteria)) item h =
      (criteria, refl, ground (arith, h))

  retrieve-entity :
      (get : Item → Result E) (found : Option (Result Item)) (entity : E)
      → retrieve api get found ≡ some (ok entity)
      → (item : Item) × (found ≡ some (ok item)) × (get item ≡ ok entity)
  unfolding retrieve
  retrieve-entity get none entity h = absurd (ground (arith, h))
  retrieve-entity get (some (err e)) entity h = absurd (ground (arith, h))
  retrieve-entity get (some (ok item)) entity h = (item, refl, ground (arith, h))

  -- If getNetworkByFilter gives a network: the filter block is valid, the search with its criteria succeeds and
  -- finds exactly one item of the wanted type, and the network is the one at the address of this item.
  pub get_network_by_filter-IsOnly :
      (filter : FilterBlock) (wanted : String) (network : E)
      → get_network_by_filter api filter wanted ≡ some (ok network)
      → (criteria : Criteria F) × (item : Item) × (build_criteria api filter ≡ some (ok criteria))
        × IsOnly
            (append_text "network_" wanted)
            (api.vdc_search qt_org_vdc_network "vdc" criteria).0
            item
        × ((api.vdc_search qt_org_vdc_network "vdc" criteria).2 ≡ none)
        × (api.network_by_href item.href ≡ ok network)
  unfolding get_network_by_filter get_entity_by_filter network_search
  get_network_by_filter-IsOnly filter wanted network h =
      let (item, found, got) =
        retrieve-entity (λ item. api.network_by_href item.href)
          (get_entity_by_filter api (network_search api wanted) (append_text "network_" wanted)
            filter)
          network h in
      let (criteria, built, only) =
        search_with-Selected (network_search api wanted) (append_text "network_" wanted)
          (build_criteria api filter) item found in
      let (one, good) =
        of_kind-one (append_text "network_" wanted) (append_text "network_" wanted)
          (api.vdc_search qt_org_vdc_network "vdc" criteria) item only in
      (
        criteria,
        item,
        built,
        items_of-IsOnly (append_text "network_" wanted)
            (api.vdc_search qt_org_vdc_network "vdc" criteria).0 item one,
        good,
        got,
      )

  -- When the search behind getNetworkByFilter fails without items, for instance because the server refuses
  -- it, the error of getNetworkByFilter says that no network was found, and not why the search failed.
  pub get_network_by_filter_hides :
      (filter : FilterBlock) (wanted : String) (criteria : Criteria F) (e : Failure)
      (explanation : String)
      → build_criteria api filter ≡ some (ok criteria)
      → api.vdc_search qt_org_vdc_network "vdc" criteria ≡ ([], explanation, some e)
      → get_network_by_filter api filter wanted
        ≡ some
            (err (plain (append_text "no " (append_text (append_text "network_" wanted) " found"))))
  unfolding get_network_by_filter get_entity_by_filter network_search
  get_network_by_filter_hides filter wanted criteria e explanation built failed =
      ap
        (λ o.
          retrieve api (λ item. api.network_by_href item.href)
            (search_with api (network_search api wanted) (append_text "network_" wanted) o))
        built
      ∙ rw failed refl
