-- ===== src/Tests/Vcd.antt =====
-- vcd/structure.go at concrete inputs.
use terraform_provider_viett.Prelude.{◌≢◌, true, false}
use terraform_provider_viett.Vcd.Structure.{FirewallRuleProtocols, get_protocol}
use terraform_provider_viett.Vcd.Structure.Laws.{get_protocol-never}

abbrev both : FirewallRuleProtocols
both = record { any = false; tcp = true; udp = true; icmp = false }

get_protocol-never_example : get_protocol both ≢ "tcp&udp"
get_protocol-never_example = get_protocol-never both
