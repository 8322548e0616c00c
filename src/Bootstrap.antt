-- ===== src/Bootstrap.antt =====
-- packages/ipfs-core/src/components/bootstrap: the list of bootstrappers in the configuration of the repository. Multiaddrs,
-- their check and `localeCompare` are parameters.
mod Members
mod Tests
use js_ipfs.Prelude.{
  Bool, true, false, not, Option, none, some, List, [], ◌∷◌, ◌++◌, ◌==◌, JsString, string_eq,
  filter, or_else, if◌then◌else◌, Result, ok, err,
}

-- The packages @multiformats/mafmt and @multiformats/multiaddr, with `a.localeCompare(b) <= 0` and the
-- bootstrappers of `defaultConfig()`.
pub record Addresses : Type 1 where
  pub Multiaddr : Type 0
  pub is_valid : Multiaddr → Bool
  pub to_text : Multiaddr → JsString
  -- `none` when it throws
  pub multiaddr : JsString → Option Multiaddr
  pub ordered : JsString → JsString → Bool
  pub defaults : List JsString

pub data BootstrapError : Type 0 where
  not_valid bad_entry : BootstrapError

-- The configuration: the field `Bootstrap` and the others.
pub record Config (R : Type 0) : Type 0 where
  pub bootstrap : Option (List JsString)
  pub rest : R

abbrev pub peers_of : {R : Type 0} → Config R → List JsString
peers_of c = or_else c.bootstrap []

-- `Array.from(new Set(list))`
abbrev pub unique : List JsString → List JsString
unique [] = []
unique (s ∷ list) = s ∷ filter (λ t. not (t == s)) (unique list)

abbrev pub insert_text : (JsString → JsString → Bool) → JsString → List JsString → List JsString
insert_text ordered s [] = s ∷ []
insert_text ordered s (t ∷ list) =
    if ordered s t then s ∷ t ∷ list else t ∷ insert_text ordered s list

abbrev pub sort_texts : (JsString → JsString → Bool) → List JsString → List JsString
sort_texts ordered [] = []
sort_texts ordered (s ∷ list) = insert_text ordered s (sort_texts ordered list)

module _ (a : Addresses) where
  pub data Command : Type 0 where
    add rm : a.Multiaddr → Command
    clear reset list : Command

  -- `map(ma => multiaddr(ma))`
  abbrev pub all_multiaddrs : List JsString → Result BootstrapError (List a.Multiaddr)
  all_multiaddrs [] = ok []
  all_multiaddrs (s ∷ texts) =
      let rest = all_multiaddrs texts in
      elim (a.multiaddr s) [
        | none ↦ err bad_entry
        | some m ↦ elim rest [ err e ↦ err e | ok ms ↦ ok (m ∷ ms) ]
      ]

  -- The configuration behind a call, and the peers that it returns or what it throws.
  abbrev pub Outcome : Type 0 → Type 0
  Outcome R = Config R × Result BootstrapError (List a.Multiaddr)

  module _ {R : Type 0} where
    pub bootstrap_add : a.Multiaddr → Config R → Outcome R
    bootstrap_add m c =
        if a.is_valid m
        then (
          record c {
            bootstrap = some (sort_texts a.ordered (unique (peers_of c ++ a.to_text m ∷ [])));
          },
          ok (m ∷ []),
        )
        else (c, err not_valid)

    pub bootstrap_rm : a.Multiaddr → Config R → Outcome R
    bootstrap_rm m c =
        if a.is_valid m
        then (
          record c { bootstrap = some (filter (λ s. not (s == a.to_text m)) (peers_of c)) },
          ok (m ∷ []),
        )
        else (c, err not_valid)

    -- The configuration is replaced before an entry is read.
    pub bootstrap_clear : Config R → Outcome R
    bootstrap_clear c = (record c { bootstrap = some [] }, all_multiaddrs (peers_of c))

    pub bootstrap_reset : Config R → Outcome R
    bootstrap_reset c = (record c { bootstrap = some a.defaults }, all_multiaddrs a.defaults)

    pub bootstrap_list : Config R → Outcome R
    bootstrap_list c = (c, all_multiaddrs (peers_of c))

    pub run_command : Command → Config R → Outcome R
    unfolding bootstrap_add bootstrap_rm bootstrap_clear bootstrap_reset bootstrap_list
    run_command (add m) c = bootstrap_add m c
    run_command (rm m) c = bootstrap_rm m c
    run_command clear c = bootstrap_clear c
    run_command reset c = bootstrap_reset c
    run_command list c = bootstrap_list c

    -- Commands that do not overlap.
    abbrev pub run_commands : List Command → Config R → Config R
    run_commands [] c = c
    run_commands (k ∷ commands) c = run_commands commands (run_command k c).0
