-- ===== src/Bootstrap/Tests.antt =====
-- Multiaddrs that are texts, of which the empty one is not valid.
use js_ipfs.Prelude.{
  ◌≡◌, refl, Bool, true, false, not, some, List, [], ◌∷◌, ◌==◌, JsString, string_eq, codes, leb, ok,
  err,
}
use js_ipfs.Bootstrap.{
  Addresses, Config, Command, add, rm, clear, reset, list, peers_of, run_commands, run_command,
  not_valid,
}
use js_ipfs.Bootstrap.Members.{contains, contains-run_commands}

abbrev first_ordered : JsString → JsString → Bool
first_ordered (c ∷ s) (d ∷ t) = leb c d
first_ordered s t = true

abbrev texts : Addresses
texts = record {
  Multiaddr = JsString;
  is_valid = λ m. not (m == []);
  to_text = λ m. m;
  multiaddr = λ s. some s;
  ordered = first_ordered;
  defaults = codes "d" ∷ [];
}

abbrev config : Config Bool
config = record { bootstrap = some (codes "b" ∷ []); rest = true }

abbrev commands : List (Command texts)
commands = add (codes "c") ∷ add (codes "a") ∷ add [] ∷ add (codes "c") ∷ rm (codes "b") ∷ list ∷ []

contains-run_commands_example :
    contains (codes "b") (peers_of (run_commands texts commands config)) ≡ false
contains-run_commands_example = contains-run_commands texts (codes "b") commands config

sorted_once : peers_of (run_commands texts commands config) ≡ codes "a" ∷ codes "c" ∷ []
unfolding run_command
sorted_once = refl

refused : run_command texts (add []) config ≡ (config, err not_valid)
unfolding run_command
refused = refl

cleared :
    run_command texts clear config
    ≡ (record { bootstrap = some []; rest = true }, ok (codes "b" ∷ []))
unfolding run_command
cleared = refl

reset_to : peers_of (run_commands texts (reset ∷ []) config) ≡ codes "d" ∷ []
unfolding run_command
reset_to = refl
