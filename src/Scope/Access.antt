-- ===== src/Scope/Access.antt =====
-- src/scope.rs, `Access`: the check of a command before it runs. How `{:?}` writes a text is a
-- parameter.
use postino.Prelude.{
  ℕ, ◌≡◌, refl, Bool, true, false, not, ◌&&◌, ◌||◌, Option, none, some, List, [], ◌∷◌, ◌++◌, arith,
  if◌then◌else◌, any, all, get_elem?, get_or, drop, is_some_and, Option-cases, inl, inr,
}
use postino.Prelude.Order.{key_eq, text_order}
use postino.Prelude.Text.{Text, Result, ok, err, codes}
use postino.Prelude.Results.{◌>>◌, guard, is_ok, bind-ok}
use postino.Prelude.Search.{starts_with, key_eq_iff}
use postino.Commands.Names.{upper, lower, first_word, name_of, key_args}
use postino.Scope.{Scope, everything, can_read, can_write, can_use_channel}

abbrev pub notification_prefixes : List Text
notification_prefixes = codes "__keyspace__" ∷ codes "__keyevent__" ∷ []

pub record Access : Type 0 where
  pub admin : Bool
  pub scope : Scope

-- `Access::admin`
abbrev pub admin_access : Access
admin_access = record { admin = true; scope = everything }

-- `patterns.join(", ")`
unfoldable pub join : List Text → Text
join [] = []
join (p ∷ []) = p
join (p ∷ q ∷ ps) = p ++ (codes ", " ++ join (q ∷ ps))

unfoldable pub describe : List Text → Text
unfolding join
describe [] = codes "none"
describe (p ∷ ps) = join (p ∷ ps)

abbrev pub lacks : List Text → Bool
lacks [] = true
lacks (_ ∷ _) = false

-- Whether the scope may do with a key what a command does.
abbrev pub allowed : Scope → Text → Bool → Bool
allowed s key write = if write then can_write key s else can_read key s

module _ (debug : Text → Text) where
  unfoldable pub denied_key : Text → Bool → Scope → Text
  unfolding describe
  denied_key key write s =
      codes "NOPERM this token cannot "
      ++ ((if write then codes "change" else codes "read")
          ++ (codes " key "
              ++ (debug key
                  ++ (codes "; it reaches "
                      ++ (if write || lacks s.read
                          then describe s.keys
                          else describe s.keys
                            ++ (codes " (and " ++ (describe s.read ++ codes " read-only)")))))))

  unfoldable pub denied_channel : Text → Scope → Text
  unfolding describe
  denied_channel channel s =
      codes "NOPERM this token cannot use channel "
      ++ (debug channel ++ (codes "; it reaches " ++ describe s.channels))

  -- A PUBLISH.
  unfoldable pub permit_publish : Text → List Text → Scope → Result (Unit {0})
  unfolding denied_channel
  permit_publish name argv s =
      if key_eq name (codes "PUBLISH")
      then elim (get_elem? argv 1) [
        | none ↦ ok tt
        | some channel ↦ do
          guard (not (any (λ p. starts_with p channel) notification_prefixes)) (
              codes
                "ERR channels starting with __keyspace__ or __keyevent__ carry key-change notifications; only the server publishes to them")
          guard (can_use_channel channel s) (denied_channel channel s)
      ]
      else ok tt

  -- The first of the channels that the scope may not use.
  unfoldable pub find_denied : List Text → Scope → Option Text
  find_denied [] s = none
  find_denied (c ∷ cs) s = if can_use_channel c s then find_denied cs s else some c

  -- A PUBSUB NUMSUB.
  unfoldable pub permit_numsub : Text → List Text → Scope → Result (Unit {0})
  unfolding find_denied denied_channel
  permit_numsub name argv s =
      if key_eq name (codes "PUBSUB")
        && is_some_and (get_elem? argv 1) (λ sub. key_eq (upper sub) (codes "NUMSUB"))
      then elim (find_denied (drop 2 argv) s) [
        | none ↦ ok tt
        | some channel ↦ err (denied_channel channel s)
      ]
      else ok tt

  unfoldable pub permit_keys : List (ℕ × Bool) → List Text → Scope → Result (Unit {0})
  unfolding denied_key
  permit_keys [] argv s = ok tt
  permit_keys ((i, write) ∷ keys) argv s =
      let key = get_or argv i [] in
      if allowed s key write then permit_keys keys argv s else err (denied_key key write s)

  -- The keys that a command names.
  unfoldable pub permit_named : List Text → Scope → Result (Unit {0})
  unfolding permit_keys
  permit_named argv s = if s.all_keys then ok tt else elim (key_args argv) [
    | none ↦ err (codes "ERR unknown command '" ++ (lower (first_word argv) ++ codes "'"))
    | some keys ↦ permit_keys keys argv s
  ]

  unfoldable pub permit : Access → List Text → Result (Unit {0})
  unfolding permit_publish permit_numsub permit_named
  permit access argv = do
    permit_publish (name_of argv) argv access.scope
    permit_numsub (name_of argv) argv access.scope
    permit_named argv access.scope

-- What a command may do: publish on a channel that is the scope's and no notification's, ask about
-- the scope's channels, and touch the keys that the scope may read or change.
abbrev pub MayPublish : List Text → Scope → Type 0
MayPublish argv s =
    name_of argv ≡ codes "PUBLISH"
    → (channel : Text) → get_elem? argv 1 ≡ some channel
    → (any (λ p. starts_with p channel) notification_prefixes ≡ false)
      × (can_use_channel channel s ≡ true)

abbrev pub MayTouch : List Text → Scope → Type 0
MayTouch argv s =
    s.all_keys ≡ false
    → (keys : List (ℕ × Bool)) × (key_args argv ≡ some keys)
      × (all (λ k. allowed s (get_or argv k.0 []) k.1) keys ≡ true)

module _ (debug : Text → Text) where
  permit_keys-all :
      (keys : List (ℕ × Bool)) (argv : List Text) (s : Scope)
      → is_ok (permit_keys debug keys argv s) ≡ all (λ k. allowed s (get_or argv k.0 []) k.1) keys
  unfolding permit_keys
  permit_keys-all [] argv s = refl
  permit_keys-all ((i, write) ∷ keys) argv s = ground (arith, permit_keys-all keys argv s)

  permit_publish-MayPublish :
      (argv : List Text) (s : Scope)
      → permit_publish debug (name_of argv) argv s ≡ ok tt
      → MayPublish argv s
  unfolding permit_publish
  permit_publish-MayPublish argv s h n channel e =
      ground (arith, (key_eq_iff (name_of argv) (codes "PUBLISH")).1 n, e)

  permit_named-MayTouch :
      (argv : List Text) (s : Scope) → permit_named debug argv s ≡ ok tt → MayTouch argv s
  unfolding permit_named
  permit_named-MayTouch argv s h limited = elim (Option-cases (key_args argv)) [
    | inl e ↦ absurd (ground (arith, h, e))
    | inr (keys, e) ↦ (keys, e, ground (arith, permit_keys-all keys argv s, e))
  ]

  -- A command that is let through publishes only on a channel that is the scope's and no
  -- notification's, and, unless the scope has all keys, is known and has the scope's leave for each of
  -- its keys.
  pub permit-allows :
      (access : Access) (argv : List Text)
      → permit debug access argv ≡ ok tt
      → MayPublish argv access.scope × MayTouch argv access.scope
  unfolding permit
  permit-allows access argv h =
      let (_, published, h') =
        bind-ok (permit_publish debug (name_of argv) argv access.scope) _ h in
      let (_, _, named) = bind-ok (permit_numsub debug (name_of argv) argv access.scope) _ h' in
      (
        permit_publish-MayPublish argv access.scope published,
        permit_named-MayTouch argv access.scope named,
      )
