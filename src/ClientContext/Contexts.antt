-- ===== src/ClientContext/Contexts.antt =====
-- The contexts of src/ClientContext.cpp: a bundle of services and a configuration that contexts share,
-- so that configurations stand in a store and a context names one. A context without a client is
-- refused, where the code throws.
use aniparse.Prelude.{
  ℕ, List, [], ◌∷◌, ◌++◌, Option, none, some, Bytes, or_else, length, get_or, set, ◌>>=◌,
}
use aniparse.Sources.{
  MirrorSource, Mirrors, SelectorSource, no_selectors, RegexSource, no_patterns, list_for, base_url,
  canonical_base_for,
}
use aniparse.ClientContext.{ParserConfig, new_config}

-- The services of a context; a holder of a source is the source that its `get` loads.
pub record ServiceState (Client Logger Cache : Type 0) : Type 0 where
  pub client : Option Client
  pub logger : Option Logger
  pub resources : Option Cache
  pub selectors : Option SelectorSource
  pub patterns : Option RegexSource
  pub mirrors : Option MirrorSource

-- A context: its services, the number of its configuration, and the mirrors as they were when it was
-- made.
pub record RequestorContext (Client Logger Cache : Type 0) : Type 0 where
  pub services : ServiceState Client Logger Cache
  pub config : ℕ
  pub mirror_snapshot : Option MirrorSource

unfoldable pub source_or : {S : Type 0} → S → Option S → S
source_or empty none = empty
source_or empty (some source) = source

-- The backend: its clients, cookie jars, loggers and resource caches, and what the code makes of them.
pub record Backend : Type 1 where
  pub Client : Type 0
  pub Jar : Type 0
  pub Logger : Type 0
  pub Cache : Type 0
  pub make_cookie_jar : Client → Option Jar
  pub new_cache : Cache

module _ (b : Backend) where
  abbrev pub Configs : Type 0
  Configs = List (ParserConfig b.Jar)

  abbrev pub Services : Type 0
  Services = ServiceState b.Client b.Logger b.Cache

  abbrev pub Context : Type 0
  Context = RequestorContext b.Client b.Logger b.Cache

  unfoldable pub with_cache : Services → Services
  with_cache services = record services {
    resources = or_else services.resources (some b.new_cache);
  }

  unfoldable pub with_jar : b.Client → ParserConfig b.Jar → ParserConfig b.Jar
  with_jar client config = record config {
    cookie_jar = or_else config.cookie_jar (b.make_cookie_jar client);
  }

  unfoldable pub config_at : ℕ → Configs → ParserConfig b.Jar
  config_at i configs = get_or configs i new_config

  -- The constructor, with a client that is there.
  unfoldable pub assemble : Services → b.Client → ℕ → Configs → Context × Configs
  assemble services client i configs = (
    record { services = with_cache services; config = i; mirror_snapshot = services.mirrors },
    set configs i (with_jar client (config_at i configs)),
  )

  -- A configuration that is not given is made.
  unfoldable pub placed : Option ℕ → Configs → ℕ × Configs
  placed none configs = (length configs, configs ++ new_config ∷ [])
  placed (some i) configs = (i, configs)

  unfoldable pub new_context : Services → Option ℕ → Configs → Option (Context × Configs)
  new_context services config configs = do
    client ← services.client
    let place = placed config configs
    some (assemble services client place.0 place.1)

  unfoldable pub new_with_logger : Option b.Logger → Context → Configs → Option (Context × Configs)
  new_with_logger logger context configs =
      new_context (record context.services { logger = logger }) (some context.config) configs

  unfoldable pub new_with_config : Option ℕ → Context → Configs → Option (Context × Configs)
  new_with_config config context configs = new_context context.services config configs

  unfoldable pub alt_link : Context → Configs → ℕ
  alt_link context configs = (config_at context.config configs).alt_link

  unfoldable pub set_alt_link : ℕ → Context → Configs → Configs
  set_alt_link link context configs =
      set configs context.config (record (config_at context.config configs) { alt_link = link })

  unfoldable pub selector_source : Context → SelectorSource
  selector_source context = source_or no_selectors context.services.selectors

  unfoldable pub pattern_source : Context → RegexSource
  pattern_source context = source_or no_patterns context.services.patterns

  -- The mirrors under an identifier that is given.
  unfoldable pub mirrors_of : Bytes → List Bytes → Context → Mirrors
  mirrors_of id builtin context = record {
    override_list = context.mirror_snapshot >>= list_for id;
    builtin = builtin;
  }

  unfoldable pub mirrors : List Bytes → Context → Configs → Mirrors
  mirrors builtin context configs =
      mirrors_of (config_at context.config configs).parser_id builtin context

  unfoldable pub context_base_url : List Bytes → Context → Configs → Bytes
  context_base_url builtin context configs =
      base_url (mirrors builtin context configs) (alt_link context configs)

  unfoldable pub canonical_base_url : Bytes → Context → Configs → Bytes
  canonical_base_url builtin context configs =
      source_or builtin (
        context.mirror_snapshot >>= canonical_base_for (config_at context.config configs).parser_id)
