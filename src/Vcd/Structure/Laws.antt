-- ===== src/Vcd/Structure/Laws.antt =====
-- vcd/structure.go: what the conversions keep.
use terraform_provider_viett.Prelude.{
  String, ◌≡◌, ◌≢◌, refl, ap, Bool, true, false, ◌&&◌, none, List, [], ◌∷◌, arith, eq_iff,
  if◌then◌else◌,
}
use terraform_provider_viett.Vcd.Structure.{
  FirewallRuleProtocols, get_protocol, string_ptr_or_nil, string_on_not_nil,
  extract_ids_from_references, convert_slice_of_strings_to_references,
}

-- getProtocol never answers "tcp&udp", whatever the protocols.
pub get_protocol-never : (p : FirewallRuleProtocols) → get_protocol p ≢ "tcp&udp"
unfolding get_protocol
get_protocol-never p = never p.tcp p.udp p.icmp
  where
    named : Bool → Bool → Bool → String
    named tcp udp icmp =
        if tcp
        then "tcp"
        else (if tcp && udp
            then "tcp&udp"
            else (if udp then "udp" else (if icmp then "icmp" else "any")))

    never : (tcp udp icmp : Bool) → named tcp udp icmp ≢ "tcp&udp"
    never true udp icmp e = cc
    never false true icmp e = cc
    never false false true e = cc
    never false false false e = cc

-- An id that is turned into a reference and back is itself, at every length.
pub extract_ids-convert :
    (ids : List String)
    → extract_ids_from_references (convert_slice_of_strings_to_references ids) ≡ ids
unfolding extract_ids_from_references convert_slice_of_strings_to_references
extract_ids-convert [] = refl
extract_ids-convert (v ∷ ids) = ap (λ rest. v ∷ rest) (extract_ids-convert ids)

-- The pointer of a text, read back, is the text; only the empty text has none.
pub string_on_not_nil-string_ptr_or_nil :
    (s : String)
    → (string_on_not_nil (string_ptr_or_nil s) ≡ s) × (string_ptr_or_nil s ≡ none → s ≡ "")
unfolding string_on_not_nil string_ptr_or_nil
string_on_not_nil-string_ptr_or_nil s =
    (ground (arith, eq_iff s ""), λ h. ground (arith, eq_iff s ""))
