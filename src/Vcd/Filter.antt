-- ===== src/Vcd/Filter.antt =====
-- vcd/filter.go and vcd/filter_get.go: how the filter block of a data source becomes search criteria, and how
-- an entity is found by them. `none` is the panic of a type assertion on a field of the wrong kind. The
-- searches of govcd, its FilterDef and its names of filters are parameters.
pub mod Search
pub mod Only
use Prim.Native.String.{◌++◌ as append_text}
use terraform_provider_viett.Prelude.{
  ◌≡◌, String, Bool, true, false, Option, none, some, List, [], ◌∷◌, ◌++◌, ◌==◌, ◌||◌,
  if◌then◌else◌, map,
}
use terraform_provider_viett.Go.{Failure, plain, wrapped, Result, ok, err}
use terraform_provider_viett.Go.Dict.{Dict}

-- a value of a field of a metadata block
pub data MetadataField : Type 0 where
  text : String → MetadataField
  flag : Bool → MetadataField

-- what the field "metadata" holds: a list of blocks, each a map or something else (`none`)
pub data MetadataBlocks : Type 0 where
  no_block_list : MetadataBlocks
  block_list : List (Option (Dict MetadataField)) → MetadataBlocks

-- a value of a field of a filter block
pub data FilterField : Type 0 where
  text_field : String → FilterField
  flag_field : Bool → FilterField
  metadata_field : MetadataBlocks → FilterField

-- an element of the list that a data source has as its filter
pub data FilterElement : Type 0 where
  nil_element : FilterElement
  filter_map : List (String × FilterField) → FilterElement
  other_element : FilterElement

-- a filter block as it comes from Terraform
pub data FilterBlock : Type 0 where
  no_filter_list : FilterBlock
  filter_list : List FilterElement → FilterBlock

-- govcd.MetadataDef
pub record MetadataDef : Type 0 where
  pub key : String
  pub kind : String
  pub value : Option MetadataField
  pub is_system : Bool

abbrev pub no_definition : MetadataDef
no_definition = record { key = ""; kind = ""; value = none; is_system = false }

-- one field of a metadata block, with the flag use_api_search so far
unfoldable pub set_metadata_field :
    MetadataDef × Bool → String → MetadataField → Option (MetadataDef × Bool)
set_metadata_field (def, api) key value =
    if key == "value" then some (record def { value = some value }, api) else elim value [
      | text s ↦
          if key == "key"
          then some (record def { key = s }, api)
          else (if key == "type"
              then some (record def { kind = s }, api)
              else (if (key == "is_system") || (key == "use_api_search")
                  then none
                  else some (def, api)))
      | flag b ↦
          if key == "is_system"
          then some (record def { is_system = b }, api)
          else (if key == "use_api_search"
              then some (def, b)
              else (if (key == "key") || (key == "type") then none else some (def, api)))
    ]

-- the loop over the fields of one block
unfoldable pub read_block : MetadataDef × Bool → Dict MetadataField → Option (MetadataDef × Bool)
unfolding set_metadata_field
read_block state [] = some state
read_block state ((key, value) ∷ fields) = elim (set_metadata_field state key value) [
  | none ↦ none
  | some next ↦ read_block next fields
]

-- the loop of buildMetadataCriteria
unfoldable pub read_blocks :
    List MetadataDef × Bool
    → List (Option (Dict MetadataField))
    → Option (Result (List MetadataDef × Bool))
unfolding read_block
read_blocks (defs, api) [] = some (ok (defs, api))
read_blocks (defs, api) (none ∷ blocks) = some (err (plain "metadata internal block is not a map"))
read_blocks (defs, api) (some fields ∷ blocks) = elim (read_block (no_definition, api) fields) [
  | none ↦ none
  | some (def, next) ↦ read_blocks (defs ++ (def ∷ []), next) blocks
]

-- buildMetadataCriteria
unfoldable pub build_metadata_criteria : MetadataBlocks → Option (Result (List MetadataDef × Bool))
unfolding read_blocks
build_metadata_criteria no_block_list = some (err (plain "metadata block is not a list"))
build_metadata_criteria (block_list blocks) = read_blocks ([], false) blocks

-- govcd.FilterDef, whose filters are of type F
pub record Criteria (F : Type 0) : Type 0 where
  pub filters : F
  pub metadata : List MetadataDef
  pub use_metadata_api_filter : Bool

-- which type of record a query asks for
pub data QueryType : Type 0 where
  qt_catalog : QueryType
  qt_admin_catalog : QueryType
  qt_vapp_template : QueryType
  qt_admin_vapp_template : QueryType
  qt_media : QueryType
  qt_admin_media : QueryType
  qt_org_vdc_network : QueryType
  qt_edge_gateway : QueryType

-- govcd.QueryItem
pub record Item : Type 0 where
  pub name : String
  pub href : String
  pub kind : String

-- the items, the explanation and the error that a search gives
abbrev pub Answer : Type 0
Answer = List Item × String × Option Failure

-- types.FilterNameRegex and the like, NewFilterDef and AddFilter, the searches of an organisation, a catalog and
-- a VDC, and the calls that retrieve an entity of type E
pub record FilterApi (F E : Type 0) : Type 0 where
  pub filter_name_regex : String
  pub filter_ip : String
  pub filter_date : String
  pub filter_latest : String
  pub filter_earliest : String
  pub no_filters : F
  pub add_filter : F → String → String → Result F
  pub org_search : QueryType → Criteria F → Answer
  pub catalog_search : QueryType → String → Criteria F → Answer
  pub vdc_search : QueryType → String → Criteria F → Answer
  pub admin_catalog_by_name_or_id : String → Result E
  pub catalog_item_by_name : String → Result E
  pub catalog_template_by_name : String → Result E
  pub vdc_template_by_name : String → Result E
  pub media_by_href : String → Result E
  pub network_by_href : String → Result E
  pub open_api_network_by_name : String → Result E
  pub edge_gateway_by_href : String → Result E

abbrev bool_text : Bool → String
bool_text true = "true"
bool_text false = "false"

module _ {F E : Type 0} (api : FilterApi F E) where
  unfoldable pub with_filter : Criteria F → String → String → Result (Criteria F)
  with_filter criteria key value = elim (api.add_filter criteria.filters key value) [
    | err e ↦ err (wrapped "[buildCriteria] error adding filter" e)
    | ok filters ↦ ok (record criteria { filters = filters })
  ]

  unfoldable pub with_metadata :
      Criteria F → Option (Result (List MetadataDef × Bool)) → Option (Result (Criteria F))
  with_metadata criteria none = none
  with_metadata criteria (some (err e)) =
      some (err (wrapped "[buildCriteria] error adding filter" e))
  with_metadata criteria (some (ok (defs, use_api))) =
      some (ok (record criteria { metadata = defs; use_metadata_api_filter = use_api }))

  abbrev pub is_text_filter : String → Bool
  is_text_filter key =
      (key == api.filter_name_regex) || (key == api.filter_ip) || (key == api.filter_date)

  abbrev pub is_flag_filter : String → Bool
  is_flag_filter key = (key == api.filter_latest) || (key == api.filter_earliest)

  -- one round of the loop of buildCriteria
  unfoldable pub add_criterion : Criteria F → String → FilterField → Option (Result (Criteria F))
  unfolding with_filter with_metadata build_metadata_criteria
  add_criterion criteria key value =
      if is_text_filter key
      then (elim value [ text_field s ↦ some (with_filter criteria key s) | _ ↦ none ])
      else (if is_flag_filter key
          then (elim value [
            | flag_field b ↦ some (with_filter criteria key (bool_text b))
            | _ ↦ none
          ])
          else (if key == "metadata"
              then (elim value [
                | metadata_field blocks ↦ with_metadata criteria (build_metadata_criteria blocks)
                | _ ↦ some (
                    err (
                      wrapped "[buildCriteria] error adding filter"
                        (plain "metadata block is not a list")))
              ])
              else some (err (plain "unsupported filter key"))))

  -- the loop of buildCriteria
  unfoldable pub add_criteria :
      Criteria F → List (String × FilterField) → Option (Result (Criteria F))
  unfolding add_criterion
  add_criteria criteria [] = some (ok criteria)
  add_criteria criteria ((key, value) ∷ fields) = elim (add_criterion criteria key value) [
    | none ↦ none
    | some (err e) ↦ some (err e)
    | some (ok next) ↦ add_criteria next fields
  ]

  abbrev pub no_criteria : Criteria F
  no_criteria = record { filters = api.no_filters; metadata = []; use_metadata_api_filter = false }

  -- buildCriteria
  unfoldable pub build_criteria : FilterBlock → Option (Result (Criteria F))
  unfolding add_criteria
  build_criteria no_filter_list = some (err (plain "[buildCriteria] filter is not a list"))
  build_criteria (filter_list []) = some (ok no_criteria)
  build_criteria (filter_list (nil_element ∷ elements)) = some (ok no_criteria)
  build_criteria (filter_list (other_element ∷ elements)) =
      some (err (plain "[buildCriteria] filter is not a map"))
  build_criteria (filter_list (filter_map fields ∷ elements)) = add_criteria no_criteria fields
