-- ===== src/Session.antt =====
-- framework/session/session.go over framework/session/drivers/memory.go.
-- A time is a number of nanoseconds, and so is a duration, where 0 stands for those below, too. A
-- nil map reads like an empty one. What crypto/rand gives is an argument, `none` where it fails.
pub mod Laws
mod Examples
use oniworks.Prelude.{
  ℕ, zero, suc, ◌+◌, ◌-◌, ◌/◌, Bool, true, false, not, Option, none, some, List, [], ◌∷◌, ◌++◌,
  if◌then◌else◌, ltb, ◌==◌, nat_eq,
}
use oniworks.Prelude.Text.{Text, text_eq, codes}
use oniworks.Prelude.Dict
use oniworks.Prelude.Dict.{Dict}

pub record StoredEntry (V : Type 0) : Type 0 where
  pub data_map : Dict Text V
  pub expires_at : ℕ

pub record MemoryStore (V : Type 0) : Type 0 where
  pub entries : Dict Text (StoredEntry V)

-- 2 * time.Hour
abbrev pub two_hours : ℕ
two_hours = 7200000000000

abbrev pub ttl_or_default : ℕ → ℕ
ttl_or_default ttl = if ttl == 0 then two_hours else ttl

pub record Config : Type 0 where
  pub cookie_name : Text
  pub domain : Text
  pub path : Text
  pub secure : Bool
  pub http_only : Bool
  pub same_site : ℕ
  pub ttl : ℕ

-- SameSite: 0 where it is not set, 2 for Lax.
default_config : Config
default_config = record {
  cookie_name = codes "oni_session";
  domain = [];
  path = codes "/";
  secure = true;
  http_only = true;
  same_site = 2;
  ttl = two_hours;
}

-- A cookie of the response. A MaxAge of -1 is `none`.
pub record Cookie : Type 0 where
  pub name : Text
  pub value : Text
  pub path : Text
  pub domain : Text
  pub max_age : Option ℕ
  pub secure : Bool
  pub http_only : Bool
  pub same_site : ℕ

pub record Session (V : Type 0) : Type 0 where
  pub id : Text
  pub data_map : Dict Text V
  pub dirty : Bool
  pub is_new : Bool

session_cookie : Config → Text → Cookie
session_cookie cfg id = record {
  name = cfg.cookie_name;
  value = id;
  path = cfg.path;
  domain = cfg.domain;
  max_age = some (cfg.ttl / 1000000000);
  secure = cfg.secure;
  http_only = cfg.http_only;
  same_site = cfg.same_site;
}

abbrev pub flash_key : Text → Text
flash_key key = codes "_flash_" ++ key

module _ {V : Type 0} where
  pub new_memory_store : MemoryStore V
  new_memory_store = record { entries = Dict.empty }

  abbrev live_data : ℕ → Option (StoredEntry V) → Option (Dict Text V)
  live_data now none = none
  live_data now (some e) = if ltb e.expires_at now then none else some e.data_map

  -- MemoryStore.Get, Set and Delete
  pub store_get : ℕ → Text → MemoryStore V → Option (Dict Text V)
  store_get now id s = live_data now (Dict.get s.entries id)

  pub store_set : ℕ → Text → Dict Text V → ℕ → MemoryStore V → MemoryStore V
  store_set now id values ttl s =
      let e : StoredEntry V = record { data_map = values; expires_at = now + ttl_or_default ttl } in
      record s { entries = Dict.put s.entries id e }

  pub store_delete : Text → MemoryStore V → MemoryStore V
  store_delete id s = record s { entries = Dict.remove s.entries id }

  restore : ℕ → Text → Option (StoredEntry V) → MemoryStore V → MemoryStore V
  unfolding store_set
  restore now new_id none s = s
  restore now new_id (some e) s = store_set now new_id e.data_map (e.expires_at - now) s

  -- MemoryStore.Regenerate at one time: the entry is gone also where no id can be made.
  pub store_regenerate : ℕ → Text → Option Text → MemoryStore V → Option Text × MemoryStore V
  unfolding restore store_delete
  store_regenerate now old_id none s = (none, store_delete old_id s)
  store_regenerate now old_id (some new_id) s =
      (some new_id, restore now new_id (Dict.get s.entries old_id) (store_delete old_id s))

  -- One tick of the eviction goroutine.
  store_evict : ℕ → MemoryStore V → MemoryStore V
  store_evict now s = record s {
    entries = Dict.filter (λ _ e. not (ltb e.expires_at now)) s.entries;
  }

  -- create: the session, and the cookies of the response. It is none where no id can be made.
  create : Config → Option Text → Option (Session V × List Cookie)
  create cfg none = none
  create cfg (some id) = some (
    record { id = id; data_map = Dict.empty; dirty = true; is_new = true },
    session_cookie cfg id ∷ [],
  )

  resume : Config → Option Text → Text → Option (Dict Text V) → Option (Session V × List Cookie)
  unfolding create
  resume cfg fresh id none = create cfg fresh
  resume cfg fresh id (some values) =
      some (record { id = id; data_map = values; dirty = false; is_new = false }, [])

  -- Start, for the value of the request's cookie, and the id that a new session would get.
  pub start :
      Config → ℕ → Option Text → Option Text → MemoryStore V → Option (Session V × List Cookie)
  unfolding resume store_get
  start cfg now none fresh s = create cfg fresh
  start cfg now (some []) fresh s = create cfg fresh
  start cfg now (some (c ∷ id)) fresh s = resume cfg fresh (c ∷ id) (store_get now (c ∷ id) s)

  pub save : Config → ℕ → Session V → MemoryStore V → Session V × MemoryStore V × List Cookie
  unfolding store_set
  save cfg now sess s =
      if sess.dirty
      then (
        record sess { dirty = false },
        store_set now sess.id sess.data_map cfg.ttl s,
        session_cookie cfg sess.id ∷ [],
      )
      else (sess, s, [])

  destroy : Config → Session V → MemoryStore V → Session V × MemoryStore V × List Cookie
  unfolding store_delete
  destroy cfg sess s =
      let gone : Cookie = record {
        name = cfg.cookie_name;
        value = [];
        path = cfg.path;
        domain = [];
        max_age = none;
        secure = false;
        http_only = true;
        same_site = 0;
      } in
      (record sess { data_map = Dict.empty }, store_delete sess.id s, gone ∷ [])

  pub get_value : Text → Session V → Option V
  get_value key sess = Dict.get sess.data_map key

  pub set_value : Text → V → Session V → Session V
  set_value key v sess = record sess { data_map = Dict.put sess.data_map key v; dirty = true }

  pub delete_value : Text → Session V → Session V
  delete_value key sess = record sess { data_map = Dict.remove sess.data_map key; dirty = true }

  has_value : Text → Session V → Bool
  unfolding get_value
  has_value key sess = elim (get_value key sess) [ none ↦ false | some v ↦ true ]

  pub flash : Text → V → Session V → Session V
  unfolding set_value
  flash key v sess = set_value (flash_key key) v sess

  pub get_flash : Text → Session V → Option V × Session V
  unfolding get_value delete_value
  get_flash key sess = elim (get_value (flash_key key) sess) [
    | none ↦ (none, sess)
    | some v ↦ (some v, delete_value (flash_key key) sess)
  ]

  with_id : Session V → Option Text × MemoryStore V → Bool × Session V × MemoryStore V
  with_id sess (none, s) = (false, sess, s)
  with_id sess (some id, s) = (true, record sess { id = id; dirty = true }, s)

  -- Session.Regenerate: whether it succeeds, the session and the store.
  regenerate : ℕ → Option Text → Session V → MemoryStore V → Bool × Session V × MemoryStore V
  unfolding with_id store_regenerate
  regenerate now fresh sess s = with_id sess (store_regenerate now sess.id fresh s)
