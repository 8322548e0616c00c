-- ===== src/Ipns/Resolver.antt =====
-- packages/ipfs-core/src/ipns/resolver.js.
pub mod Limit
use js_ipfs.Prelude.{
  ℕ, suc, zero, Bool, true, false, ◌&&◌, ◌||◌, not, Option, none, some, List, [], ◌∷◌, ◌==◌,
  JsString, codes, split, string_eq, if◌then◌else◌, nat_beq, length, Result, ok, err, ◌>>=◌,
  or_throw, throw_if, get_elem?,
}

-- What `routing.get` can throw.
pub data RoutingError : Type 0 where
  not_found other_error : RoutingError

pub data ResolveError : Type 0 where
  invalid_name invalid_peer no_record_found unexpected_error invalid_record : ResolveError
  recursion_limit : ResolveError

pub record Network : Type 1 where
  pub Peer : Type 0
  pub Record : Type 0
  -- `peerIdFromString`, of `undefined` too.
  pub peer_from_string : Option JsString → Option Peer
  pub get : Peer → Result RoutingError Record
  -- The value of a record that passes `ipnsValidator`.
  pub valid_value : Peer → Record → Option JsString

abbrev pub default_maximum_recursive_depth : ℕ
default_maximum_recursive_depth = 32

abbrev pub segment_is : ℕ → JsString → List JsString → Bool
segment_is i text segments = elim (get_elem? segments i) [ none ↦ false | some s ↦ s == text ]

-- `nameSegments[1] === 'ipfs'`
abbrev pub is_ipfs : JsString → Bool
is_ipfs value = segment_is 1 (codes "ipfs") (split 47 value)

-- `nameSegments[2]`
abbrev pub next_name : JsString → Option JsString
next_name value = get_elem? (split 47 value) 2

-- `nameSegments`, checked: the key.
unfoldable pub key_of : JsString → Result ResolveError (Option JsString)
key_of name =
    let segments = split 47 name in
    if not (nat_beq (length segments) 3) || not (segment_is 0 [] segments)
    then err invalid_name
    else ok (get_elem? segments 2)

module _ (network : Network) where
  -- `_validateRecord`
  unfoldable pub validate_record : network.Peer → network.Record → Result ResolveError JsString
  validate_record peer r = or_throw (network.valid_value peer r) invalid_record

  -- `_resolveName`
  unfoldable pub resolve_name : Option JsString → Result ResolveError JsString
  unfolding validate_record
  resolve_name name = elim (network.peer_from_string name) [
    | none ↦ err invalid_peer
    | some peer ↦ elim (network.get peer) [
      | err not_found ↦ err no_record_found
      | err other_error ↦ err unexpected_error
      | ok r ↦ validate_record peer r
    ]
  ]

  -- `resolver` with a finite depth.
  unfoldable pub resolver : ℕ → Option JsString → Result ResolveError JsString
  resolver zero name = err recursion_limit
  resolver (suc depth) name = elim (resolve_name name) [
    | err e ↦ err e
    | ok res ↦ let rest = resolver depth (next_name res) in if is_ipfs res then ok res else rest
  ]

  -- `resolver` with the depth `Infinity`, cut off behind `rounds` rounds: `none` says that it is
  -- still running.
  unfoldable pub resolver_unbounded : ℕ → Option JsString → Option (Result ResolveError JsString)
  resolver_unbounded zero name = none
  resolver_unbounded (suc rounds) name = elim (resolve_name name) [
    | err e ↦ some (err e)
    | ok res ↦
        let rest = resolver_unbounded rounds (next_name res) in
        if is_ipfs res then some (ok res) else rest
  ]

  -- `resolve`, of a text.
  unfoldable pub resolve : ℕ → JsString → Bool → Option (Result ResolveError JsString)
  unfolding key_of resolver resolver_unbounded
  resolve rounds name recursive = elim (key_of name) [
    | err e ↦ some (err e)
    | ok key ↦
        if recursive
        then some (resolver default_maximum_recursive_depth key)
        else resolver_unbounded rounds key
  ]
