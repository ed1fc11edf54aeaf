-- ===== src/Session/Examples.antt =====
-- framework/session: the theorems on one session.
use oniworks.Prelude.{ℕ, ◌+◌, ◌≤◌, ◌<◌, ◌≡◌, ◌≢◌, refl, true, false, none, some, [], arith, ◌==◌}
use oniworks.Prelude.Text.{text_eq, codes}
use oniworks.Prelude.Dict
use oniworks.Prelude.Dict.{Dict}
use oniworks.Session.{
  StoredEntry, MemoryStore, Config, Session, two_hours, new_memory_store, store_get,
  store_regenerate, store_set, start, save,
}
use oniworks.Session.Laws.{start-save, store_regenerate_lem}

abbrev cart : Session ℕ
cart = record {
  id = codes "s1";
  data_map = Dict.put Dict.empty (codes "items") 3;
  dirty = true;
  is_new = true;
}

abbrev plain_config : Config
plain_config = record {
  cookie_name = codes "sid";
  domain = [];
  path = codes "/";
  secure = true;
  http_only = true;
  same_site = 2;
  ttl = 60;
}

cart_id : codes "s1" ≢ []
cart_id e = cc

start-save_example :
    start plain_config 50 (some cart.id) none (save plain_config 0 cart new_memory_store).1
    ≡ some (record { id = cart.id; data_map = cart.data_map; dirty = false; is_new = false }, [])
start-save_example =
    start-save plain_config 0 50 cart none new_memory_store refl cart_id (omega arith)

abbrev one_session : MemoryStore ℕ
one_session = store_set 0 (codes "s1") cart.data_map 60 new_memory_store

store_regenerate_lem_example :
    (store_get 20 (codes "s1") (store_regenerate 10 (codes "s1") (some (codes "s2")) one_session).1
      ≡ none)
    × ((codes "s1" == codes "s3") ≡ false
        → (codes "s2" == codes "s3") ≡ false
        → store_get 20
            (codes "s3")
            (store_regenerate 10 (codes "s1") (some (codes "s2")) one_session).1
          ≡ store_get 20 (codes "s3") one_session)
    × ((e : StoredEntry ℕ)
        → Dict.get one_session.entries (codes "s1") ≡ some e
        → (10 < e.expires_at
            → store_get 20
                (codes "s2")
                (store_regenerate 10 (codes "s1") (some (codes "s2")) one_session).1
              ≡ store_get 20 (codes "s1") one_session)
          × (e.expires_at ≤ 10
              → 20 ≤ 10 + two_hours
              → store_get 20
                  (codes "s2")
                  (store_regenerate 10 (codes "s1") (some (codes "s2")) one_session).1
                ≡ some e.data_map))
store_regenerate_lem_example =
    store_regenerate_lem 10 20 (codes "s1") (codes "s2") (codes "s3") one_session refl (omega arith)
