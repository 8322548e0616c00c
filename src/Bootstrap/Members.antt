-- ===== src/Bootstrap/Members.antt =====
-- Which bootstrappers the configuration has behind any commands.
use js_ipfs.Prelude.{
  ◌≡◌, refl, ap, ◌∙◌, Bool, true, false, not, ◌||◌, List, [], ◌∷◌, ◌++◌, ◌==◌, JsString, string_eq,
  filter, any, if◌then◌else◌, arith, Bool-cases, inl, inr,
}
use js_ipfs.Bootstrap.{
  Addresses, Config, Command, add, rm, clear, reset, list, peers_of, unique, insert_text,
  sort_texts, bootstrap_add, bootstrap_rm, bootstrap_clear, bootstrap_reset, bootstrap_list,
  run_command, run_commands,
}

abbrev pub contains : JsString → List JsString → Bool
contains s texts = any (λ t. t == s) texts

contains-insert_text :
    (ordered : JsString → JsString → Bool) (s t : JsString) (texts : List JsString)
    → contains s (insert_text ordered t texts) ≡ ((t == s) || contains s texts)
contains-insert_text ordered s t [] = refl
contains-insert_text ordered s t (u ∷ texts) =
    ground (arith, contains-insert_text ordered s t texts)

contains-sort_texts :
    (ordered : JsString → JsString → Bool) (s : JsString) (texts : List JsString)
    → contains s (sort_texts ordered texts) ≡ contains s texts
contains-sort_texts ordered s [] = refl
contains-sort_texts ordered s (t ∷ texts) =
    contains-insert_text ordered s t (sort_texts ordered texts)
    ∙ ap (λ b. (t == s) || b) (contains-sort_texts ordered s texts)

contains-filter :
    (s t : JsString) (texts : List JsString)
    → contains s (filter (λ u. not (u == t)) texts) ≡ (if t == s then false else contains s texts)
contains-filter s t [] = ground arith
contains-filter s t (u ∷ texts) = ground (
  arith,
  contains-filter s t texts,
  string_eq.beq_iff u t,
  string_eq.beq_iff u s,
  string_eq.beq_iff t s,
)

contains-unique :
    (s : JsString) (texts : List JsString) → contains s (unique texts) ≡ contains s texts
contains-unique s [] = refl
contains-unique s (t ∷ texts) =
    ground (arith, contains-filter s t (unique texts), contains-unique s texts)

contains-append :
    (s t : JsString) (texts : List JsString)
    → contains s (texts ++ t ∷ []) ≡ (if t == s then true else contains s texts)
contains-append s t [] = ground arith
contains-append s t (u ∷ texts) = ground (arith, contains-append s t texts)

module _ (a : Addresses) where
  -- Whether a text is a bootstrapper behind a command, when it was one before or not.
  abbrev kept_by : JsString → Command a → Bool → Bool
  kept_by s (add m) before =
      if a.is_valid m then (if a.to_text m == s then true else before) else before
  kept_by s (rm m) before =
      if a.is_valid m then (if a.to_text m == s then false else before) else before
  kept_by s clear before = false
  kept_by s reset before = contains s a.defaults
  kept_by s list before = before

  abbrev pub kept_by_all : JsString → List (Command a) → Bool → Bool
  kept_by_all s [] before = before
  kept_by_all s (k ∷ commands) before = kept_by_all s commands (kept_by s k before)

  contains-run_command :
      {R : Type 0} (s : JsString) (k : Command a) (c : Config R)
      → contains s (peers_of (run_command a k c).0) ≡ kept_by s k (contains s (peers_of c))
  unfolding run_command bootstrap_add bootstrap_rm bootstrap_clear bootstrap_reset bootstrap_list
  contains-run_command s (add m) c = elim (Bool-cases (a.is_valid m)) [
    | inl e ↦ rw e (
        contains-sort_texts a.ordered s (unique (peers_of c ++ a.to_text m ∷ []))
        ∙ contains-unique s (peers_of c ++ a.to_text m ∷ [])
        ∙ contains-append s (a.to_text m) (peers_of c))
    | inr e ↦ rw e refl
  ]
  contains-run_command s (rm m) c = elim (Bool-cases (a.is_valid m)) [
    | inl e ↦ rw e (contains-filter s (a.to_text m) (peers_of c))
    | inr e ↦ rw e refl
  ]
  contains-run_command s clear c = refl
  contains-run_command s reset c = refl
  contains-run_command s list c = refl

  -- Behind any commands, a text is in the list of bootstrappers exactly when the last command that
  -- concerns it put it there: an addition of a valid multiaddr with this text, or a reset when it is
  -- one of the defaults, and no removal of a valid multiaddr with this text, no reset without it and no
  -- clearing since; when no command concerns it, when it was there before.
  pub contains-run_commands :
      {R : Type 0} (s : JsString) (commands : List (Command a)) (c : Config R)
      → contains s (peers_of (run_commands a commands c))
        ≡ kept_by_all s commands (contains s (peers_of c))
  contains-run_commands s [] c = refl
  contains-run_commands s (k ∷ commands) c =
      contains-run_commands s commands (run_command a k c).0
      ∙ ap (kept_by_all s commands) (contains-run_command s k c)
