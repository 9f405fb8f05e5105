-- ===== src/Tests/Filter.antt =====
-- vcd/filter_get.go with a VDC that has one network of each of two types.
use terraform_provider_viett.Prelude.{String, ◌≡◌, refl, none, some, List, [], ◌∷◌, ◌++◌}
use terraform_provider_viett.Go.{ok}
use terraform_provider_viett.Vcd.Filter.{
  FilterBlock, filter_list, filter_map, text_field, Criteria, Item, FilterApi, qt_org_vdc_network,
  build_criteria,
}
use terraform_provider_viett.Vcd.Filter.Search.{items_of, get_network_by_filter}
use terraform_provider_viett.Vcd.Filter.Only.{IsOnly, get_network_by_filter-IsOnly}

abbrev routed : Item
routed = record { name = "front"; href = "https://vcd/network/1"; kind = "network_routed" }

abbrev isolated : Item
isolated = record { name = "back"; href = "https://vcd/network/2"; kind = "network_isolated" }

abbrev two_networks : FilterApi (List (String × String)) String
two_networks = record {
  filter_name_regex = "name_regex";
  filter_ip = "ip";
  filter_date = "date";
  filter_latest = "latest";
  filter_earliest = "earliest";
  no_filters = [];
  add_filter = λ filters key value. ok (filters ++ ((key, value) ∷ []));
  org_search = λ query criteria. ([], "", none);
  catalog_search = λ query parent criteria. ([], "", none);
  vdc_search = λ query parent criteria. (routed ∷ isolated ∷ [], "name", none);
  admin_catalog_by_name_or_id = λ name. ok name;
  catalog_item_by_name = λ name. ok name;
  catalog_template_by_name = λ name. ok name;
  vdc_template_by_name = λ name. ok name;
  media_by_href = λ href. ok href;
  network_by_href = λ href. ok href;
  open_api_network_by_name = λ name. ok name;
  edge_gateway_by_href = λ href. ok href;
}

abbrev any_name : FilterBlock
any_name = filter_list (filter_map (("name_regex", text_field ".*") ∷ []) ∷ [])

get_network_by_filter-IsOnly_example :
    (criteria : Criteria (List (String × String))) × (item : Item) × (build_criteria two_networks
        any_name
      ≡ some (ok criteria))
    × IsOnly "network_isolated" (routed ∷ isolated ∷ []) item
    × ((two_networks.vdc_search qt_org_vdc_network "vdc" criteria).2 ≡ none)
    × (two_networks.network_by_href item.href ≡ ok "https://vcd/network/2")
unfolding get_network_by_filter build_criteria items_of
get_network_by_filter-IsOnly_example =
    get_network_by_filter-IsOnly two_networks any_name "isolated" "https://vcd/network/2" refl
