-- ===== src/Tests/IncludeTests.antt =====
-- The includes of src/config_ui.rs: two files that include each other.
use smartdns_plus_ui.Base.{
  ◌||◌, List, [], ◌∷◌, map, ◌≡◌, refl, Option, none, some, if◌then◌else◌, Text, codes, text_eq,
  is_whitespace, arith,
}
use smartdns_plus_ui.Config.Model.{ConfigSource}
use smartdns_plus_ui.Config.Include.{
  Include, Disk, Outcome, collected, failed, out_of_fuel, includes_of, collect_config_sources,
}
use smartdns_plus_ui.Config.Include.Ends.{CollectsAll, collect_config_sources_ends}

abbrev main_file : Text
main_file = codes "/etc/m.conf"

abbrev rules_file : Text
rules_file = codes "/etc/r.conf"

abbrev ring : Disk
ring = record {
  canonicalize = λ path. path;
  exists = λ path. text_eq path main_file || text_eq path rules_file;
  read = λ path.
      if text_eq path main_file
      then some (codes "conf-file r.conf -group kids\nconf-file gone.conf\n")
      else some (codes "conf-file /etc/m.conf\nbind :53\n");
}

abbrev ring_places : List Include
ring_places = (main_file, none) ∷ (rules_file, some (codes "kids")) ∷ []

collect_config_sources_ends_example :
    CollectsAll ring main_file ring_places (collect_config_sources ring 3 main_file)
unfolding includes_of text_eq is_whitespace
collect_config_sources_ends_example =
    collect_config_sources_ends ring 3 main_file ring_places refl refl (omega arith)

abbrev paths_of : Outcome → List (Text × Option Text)
paths_of (collected c) = map (λ (s : ConfigSource). (s.path, s.implicit_group)) c.items
paths_of failed = []
paths_of out_of_fuel = []

ring_once : paths_of (collect_config_sources ring 3 main_file) ≡ ring_places
unfolding collect_config_sources is_whitespace
ring_once = refl
