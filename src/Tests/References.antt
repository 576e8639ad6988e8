-- ===== src/Tests/References.antt =====
-- References.
use agentfile.Common.{◌≡◌, refl, true}
use agentfile.Common.Texts.{codes, contains}
use agentfile.Spec.Reference.{Reference, parse_reference, to_string, is_qualified}
use agentfile.Spec.Reference.RoundTrip.{parse_reference-to_string}

abbrev tagged : Reference
tagged = record { name = codes "localhost:5000/agents/meteo"; tag = codes "v1" }

abbrev bare : Reference
bare = record { name = codes "agents/meteo"; tag = codes "v1" }

parse_port :
    parse_reference (codes "localhost:5000/meteo")
    ≡ record { name = codes "localhost:5000/meteo"; tag = codes "latest" }
unfolding parse_reference
parse_port = refl

parse_tag :
    parse_reference (codes "localhost:5000/meteo:v2")
    ≡ record { name = codes "localhost:5000/meteo"; tag = codes "v2" }
unfolding parse_reference
parse_tag = refl

qualified : is_qualified (codes "ghcr.io/a:v1") ≡ true
unfolding is_qualified
qualified = refl

parse_reference-to_string_example : parse_reference (to_string tagged) ≡ tagged
unfolding contains
parse_reference-to_string_example =
    parse_reference-to_string tagged (λ e. cc) (λ e. cc) (refl, refl)
