-- ===== src/Examples/Files.antt =====
-- The UCI files of internal/ucifile/ucifile.go and the configuration of internal/stcfg at one file.
use stageneth.Prelude.{true, false, [], ◌∷◌, ◌++◌, lit, lookup, ◌≡◌}
use stageneth.Ucifile.{Section, File}
use stageneth.Ucifile.Reader.{parse}
use stageneth.Ucifile.Printer.{text}
use stageneth.Ucifile.RoundTrip.{clean_file, parse-text}
use stageneth.Stcfg.{parse_config}
use stageneth.Stcfg.Laws.{last_service, parse_config-services}

abbrev pub audio : Section
audio = record {
  type = lit "service";
  name = lit "audio";
  options =
      record { name = lit "vlan_id"; value = lit "20"; list = false }
      ∷ record { name = lit "description"; value = lit "it's" ++ b'\n' ∷ lit "stage"; list = false }
      ∷ record { name = lit "ntp"; value = lit "a b"; list = true }
      ∷ [];
}

abbrev pub mgmt : Section
mgmt = record {
  type = lit "service";
  name = lit "mgmt";
  options = record { name = lit "vlan_id"; value = lit "10"; list = false } ∷ [];
}

abbrev pub two_services : File
two_services = audio ∷ mgmt ∷ []

parse-text_example : parse (text two_services) ≡ clean_file two_services
parse-text_example = parse-text two_services

services_example :
    lookup (lit "audio") (parse_config two_services).services
    ≡ last_service (lit "audio") two_services
services_example = parse_config-services two_services (lit "audio")
