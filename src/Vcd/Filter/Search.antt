-- ===== src/Vcd/Filter/Search.antt =====
-- vcd/filter_get.go: the search for one entity by a filter block.
use Prim.Native.String.{◌++◌ as append_text}
use terraform_provider_viett.Prelude.{
  String, Bool, true, Option, none, some, List, [], ◌∷◌, ◌==◌, if◌then◌else◌,
}
use terraform_provider_viett.Go.{Failure, plain, wrapped, Result, ok, err}
use terraform_provider_viett.Vcd.Filter.{
  FilterBlock, Criteria, QueryType, qt_catalog, qt_admin_catalog, qt_vapp_template,
  qt_admin_vapp_template, qt_media, qt_admin_media, qt_org_vdc_network, qt_edge_gateway, Item,
  Answer, FilterApi, build_criteria,
}

-- nameOrFilterIsSet; the arguments are what d.GetOk says of the two fields
abbrev pub name_or_filter_is_set : Bool → Bool → Bool
name_or_filter_is_set name filter = if name then true else filter

-- what getEntityByFilter makes of the answer of a search
unfoldable pub only_item : String → Answer → Result Item
only_item label (items, explanation, some e) = err e
only_item label ([], explanation, none) =
    err (plain (append_text "no " (append_text label " found")))
only_item label (item ∷ [], explanation, none) = ok item
only_item label (item ∷ other ∷ items, explanation, none) =
    err (plain (append_text "more than one " (append_text label " found by given criteria")))

-- the items of one type
unfoldable pub items_of : String → List Item → List Item
items_of kind [] = []
items_of kind (item ∷ items) =
    let rest = items_of kind items in if item.kind == kind then item ∷ rest else rest

-- what the search function of the two network searches gives for the items of the wanted type; the error of
-- the search is dropped with an empty list
unfoldable pub kept_answer : String → List Item → String → Option Failure → Answer
kept_answer kind [] explanation e =
    ([], "", some (plain (append_text "no " (append_text kind " found"))))
kept_answer kind (item ∷ items) explanation e = (item ∷ items, explanation, e)

unfoldable pub of_kind : String → Answer → Answer
unfolding items_of kept_answer
of_kind kind (items, explanation, e) = kept_answer kind (items_of kind items) explanation e

module _ {F E : Type 0} (api : FilterApi F E) where
  -- the part of getEntityByFilter after buildCriteria
  unfoldable pub search_with :
      (Criteria F → Answer) → String → Option (Result (Criteria F)) → Option (Result Item)
  unfolding only_item
  search_with search label none = none
  search_with search label (some (err e)) = some (err e)
  search_with search label (some (ok criteria)) = some (only_item label (search criteria))

  -- getEntityByFilter
  unfoldable pub get_entity_by_filter :
      (Criteria F → Answer) → String → FilterBlock → Option (Result Item)
  unfolding search_with build_criteria
  get_entity_by_filter search label filter = search_with search label (build_criteria api filter)

  -- the end of every search: the entity of the item
  unfoldable pub retrieve : (Item → Result E) → Option (Result Item) → Option (Result E)
  retrieve get none = none
  retrieve get (some (err e)) = some (err e)
  retrieve get (some (ok item)) = elim (get item) [
    | err e ↦ some (err (wrapped "error retrieving" e))
    | ok entity ↦ some (ok entity)
  ]

  -- getCatalogByFilter
  unfoldable pub get_catalog_by_filter : FilterBlock → Bool → Option (Result E)
  unfolding retrieve get_entity_by_filter
  get_catalog_by_filter filter is_sys_admin =
      let query = if is_sys_admin then qt_admin_catalog else qt_catalog in
      retrieve (λ item. api.admin_catalog_by_name_or_id item.name)
        (get_entity_by_filter (api.org_search query) "catalog" filter)

  abbrev template_query : Bool → QueryType
  template_query is_sys_admin = if is_sys_admin then qt_admin_vapp_template else qt_vapp_template

  -- getCatalogItemByFilter
  unfoldable pub get_catalog_item_by_filter : FilterBlock → Bool → Option (Result E)
  unfolding retrieve get_entity_by_filter
  get_catalog_item_by_filter filter is_sys_admin =
      retrieve (λ item. api.catalog_item_by_name item.name)
        (get_entity_by_filter (api.catalog_search (template_query is_sys_admin) "catalogName")
          "vApp template" filter)

  -- getVappTemplateByCatalogAndFilter
  unfoldable pub get_vapp_template_by_catalog_and_filter : FilterBlock → Bool → Option (Result E)
  unfolding retrieve get_entity_by_filter
  get_vapp_template_by_catalog_and_filter filter is_sys_admin =
      retrieve (λ item. api.catalog_template_by_name item.name)
        (get_entity_by_filter (api.catalog_search (template_query is_sys_admin) "catalogName")
          "vApp Template" filter)

  -- getVappTemplateByVdcAndFilter
  unfoldable pub get_vapp_template_by_vdc_and_filter : FilterBlock → Bool → Option (Result E)
  unfolding retrieve get_entity_by_filter
  get_vapp_template_by_vdc_and_filter filter is_sys_admin =
      retrieve (λ item. api.vdc_template_by_name item.name)
        (get_entity_by_filter (api.vdc_search (template_query is_sys_admin) "vdc") "vApp Template"
          filter)

  -- getMediaByFilter
  unfoldable pub get_media_by_filter : FilterBlock → Bool → Option (Result E)
  unfolding retrieve get_entity_by_filter
  get_media_by_filter filter is_sys_admin =
      let query = if is_sys_admin then qt_admin_media else qt_media in
      retrieve (λ item. api.media_by_href item.href)
        (get_entity_by_filter (api.catalog_search query "catalog") "media item" filter)

  -- the search function of a network search
  unfoldable pub network_search : String → Criteria F → Answer
  unfolding of_kind
  network_search wanted criteria =
      of_kind (append_text "network_" wanted) (api.vdc_search qt_org_vdc_network "vdc" criteria)

  -- getNetworkByFilter
  unfoldable pub get_network_by_filter : FilterBlock → String → Option (Result E)
  unfolding retrieve get_entity_by_filter network_search
  get_network_by_filter filter wanted =
      retrieve (λ item. api.network_by_href item.href)
        (get_entity_by_filter (network_search wanted) (append_text "network_" wanted) filter)

  -- getOpenApiOrgVdcNetworkByFilter
  unfoldable pub get_open_api_org_vdc_network_by_filter : FilterBlock → String → Option (Result E)
  unfolding retrieve get_entity_by_filter network_search
  get_open_api_org_vdc_network_by_filter filter wanted =
      retrieve (λ item. api.open_api_network_by_name item.name)
        (get_entity_by_filter (network_search wanted) (append_text "network_" wanted) filter)

  -- getEdgeGatewayByFilter
  unfoldable pub get_edge_gateway_by_filter : FilterBlock → Option (Result E)
  unfolding retrieve get_entity_by_filter
  get_edge_gateway_by_filter filter =
      retrieve (λ item. api.edge_gateway_by_href item.href)
        (get_entity_by_filter (api.vdc_search qt_edge_gateway "vdc") "edge gateway" filter)
