-- ===== src/ClientContext/Sharing.antt =====
-- What contexts that share a configuration see of each other.
use aniparse.Prelude.{
  Elem, [], ◌∷◌, inl, inr, sym, ◌∙◌, ℕ, zero, suc, ◌<◌, List, Option, none, some, ◌≡◌, refl, ap,
  arith, or_else, length, length-append, get_or, set, >>=-eq-some,
}
use mathlib.Core.Path.{subst}
use aniparse.ClientContext.{ParserConfig, new_config}
use aniparse.ClientContext.Contexts.{
  Backend, Configs, Services, Context, with_cache, with_jar, config_at, assemble, placed,
  new_context, new_with_logger, alt_link, set_alt_link,
}

module _ {A : Type 0} where
  length-set : (i : ℕ) (new : A) (as' : List A) → length (set as' i new) ≡ length as'
  length-set i new [] = refl
  length-set zero new (a ∷ as') = refl
  length-set (suc i) new (a ∷ as') = ap suc (length-set i new as')

  get_or-set_here :
      (i : ℕ) (new d : A) (as' : List A) → i < length as' → get_or (set as' i new) i d ≡ new
  get_or-set_here i new d [] h = absurd (omega (arith, h))
  get_or-set_here zero new d (a ∷ as') h = refl
  get_or-set_here (suc i) new d (a ∷ as') h = get_or-set_here i new d as' (omega (arith, h))

  set-get_or : (i : ℕ) (d : A) (as' : List A) → set as' i (get_or as' i d) ≡ as'
  set-get_or i d [] = refl
  set-get_or zero d (a ∷ as') = refl
  set-get_or (suc i) d (a ∷ as') = ap (◌∷◌ a) (set-get_or i d as')

-- A configuration that is given stands in the store.
abbrev pub IsPlaced : (b : Backend) → Option ℕ → Configs b → Type 0
IsPlaced b none configs = Unit
IsPlaced b (some i) configs = i < length configs

module _ (b : Backend) where
  placed-inside :
      (config : Option ℕ) (configs : Configs b)
      → IsPlaced b config configs
      → let place = placed b config configs in place.0 < length place.1
  unfolding placed
  placed-inside none configs h = omega (arith, length-append {0} configs (new_config ∷ []))
  placed-inside (some i) configs h = h

  -- A jar that is there is kept.
  with_jar_kept :
      (client : b.Client) (config : ParserConfig b.Jar) {jar : b.Jar}
      → config.cookie_jar ≡ some jar
      → with_jar b client config ≡ config
  unfolding with_jar
  with_jar_kept client config h = λ i. record config { cookie_jar = kept i }
    where
      kept : or_else config.cookie_jar (b.make_cookie_jar client) ≡ config.cookie_jar
      kept = rw h refl

  -- A context that was made, with its place in the store.
  abbrev IsMade : Context b → Configs b → Type 0
  IsMade context configs =
      (client : b.Client) × (context.services.client ≡ some client)
      × (context.config < length configs)

  new_context-IsMade :
      (services : Services b) (config : Option ℕ) (configs configs' : Configs b)
      (context : Context b)
      → IsPlaced b config configs
      → new_context b services config configs ≡ some (context, configs')
      → IsMade context configs'
  unfolding new_context assemble with_cache
  new_context-IsMade services config configs configs' context h e =
      let (client, there, made) = >>=-eq-some services.client _ e in
      let place = placed b config configs in
      let inside = placed-inside config configs h in
      let changed = with_jar b client (config_at b place.0 place.1) in
      let pair : (assemble b services client place.0 place.1) ≡ (context, configs') =
        some_eq made in
      let still : place.0 < length (set place.1 place.0 changed) =
        omega (arith, inside, length-set place.0 changed place.1) in
      subst (λ q. IsMade q.0 q.1) pair (client, there, still)
    where
      some_eq : {x y : Context b × Configs b} → some x ≡ some y → x ≡ y
      some_eq eq = cc (eq)

  -- A made context whose session has a jar gives others that share it, and the store stays.
  derived :
      (context : Context b) (configs : Configs b) (logger : Option b.Logger) {jar : b.Jar}
      → IsMade context configs
      → (config_at b context.config configs).cookie_jar ≡ some jar
      → (context' : Context b) × (new_with_logger b logger context configs
          ≡ some (context', configs))
        × (context'.config ≡ context.config)
  unfolding new_with_logger new_context placed assemble config_at with_cache
  derived context configs logger (client, there, inside) h = (
    record {
      services = with_cache b (record context.services { logger = logger });
      config = context.config;
      mirror_snapshot = context.services.mirrors;
    },
    rw there (
        rw
          (
            with_jar_kept client (get_or configs context.config new_config) h,
            set-get_or context.config new_config configs,
          )
          refl),
    refl,
  )

  seen_link :
      (context context' : Context b) (link : ℕ) (configs : Configs b)
      → context'.config ≡ context.config
      → context.config < length configs
      → alt_link b context (set_alt_link b link context' configs) ≡ link
  unfolding alt_link set_alt_link config_at
  seen_link context context' link configs same inside = rw same (
      ap (λ c. c.alt_link)
        (get_or-set_here context.config
          (record (get_or configs context.config new_config) { alt_link = link }) new_config configs
          inside))

  one_config :
      (context context' : Context b)
      → context'.config ≡ context.config
      → (c : Context b) → Elem c (context ∷ context' ∷ [])
      → c.config ≡ context.config
  one_config context context' same c (inl first) = ap (λ x. x.config) first
  one_config context context' same c (inr (inl other)) = ap (λ x. x.config) other ∙ same
  one_config context context' same c (inr (inr nowhere)) = elim nowhere [ ]

  -- A context with another logger, derived from one whose session has a jar, leaves every
  -- configuration and so the session as it was, and has the configuration of the first; the mirror
  -- that is chosen through either context is the one that both use from then on.
  pub new_with_logger_shares :
      (services : Services b) (config : Option ℕ) (configs configs' : Configs b)
      (context : Context b) (logger : Option b.Logger) (link : ℕ) {jar : b.Jar}
      → IsPlaced b config configs
      → new_context b services config configs ≡ some (context, configs')
      → (config_at b context.config configs').cookie_jar ≡ some jar
      → (context' : Context b) × (new_with_logger b logger context configs'
          ≡ some (context', configs'))
        × (context'.config ≡ context.config)
        × ((chooser user : Context b)
            → Elem chooser (context ∷ context' ∷ [])
            → Elem user (context ∷ context' ∷ [])
            → alt_link b user (set_alt_link b link chooser configs') ≡ link)
  new_with_logger_shares services config configs configs' context logger link placed made jar =
      let is_made = new_context-IsMade services config configs configs' context placed made in
      let (context', derives, same) = derived context configs' logger is_made jar in
      let at = one_config context context' same in
      (
        context',
        derives,
        same,
        λ chooser user chooses uses.
            let agree : chooser.config ≡ user.config = at chooser chooses ∙ sym (at user uses) in
            seen_link user chooser link configs' agree (rw (at user uses) is_made.2),
      )
