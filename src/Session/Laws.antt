-- ===== src/Session/Laws.antt =====
-- framework/session: what survives the requests of a session, and what does not.
use oniworks.Prelude.{
  ℕ, ◌+◌, ◌-◌, ◌≤◌, ◌<◌, ◌≡◌, ◌≢◌, refl, sym, ap, ◌∙◌, true, false, Option, none, some, [], ◌∷◌,
  arith, if◌then◌else◌, ltb, ◌==◌, ==_iff, ==-refl, nat_eq, Bool-false,
}
use oniworks.Prelude.Text.{Text, text_eq}
use oniworks.Prelude.Dict
use oniworks.Prelude.Dict.{Dict}
use oniworks.Session.{
  StoredEntry, MemoryStore, Config, Session, two_hours, ttl_or_default, store_get, store_set,
  store_delete, restore, store_regenerate, resume, start, save, get_value, set_value, delete_value,
  flash_key, flash, get_flash,
}

module _ {V : Type 0} where
  store_get-store_set :
      (now later : ℕ) (id j : Text) (values : Dict Text V) (ttl : ℕ) (s : MemoryStore V)
      → store_get later j (store_set now id values ttl s) ≡ (
          if id == j
          then (if ltb (now + ttl_or_default ttl) later then none else some values)
          else store_get later j s)
  unfolding store_get store_set
  store_get-store_set now later id j values ttl s =
      let e : StoredEntry V = record { data_map = values; expires_at = now + ttl_or_default ttl } in
      ground (arith, Dict.get-put s.entries id j e)

  store_get-store_delete :
      (later : ℕ) (id j : Text) (s : MemoryStore V)
      → store_get later j (store_delete id s) ≡ (if id == j then none else store_get later j s)
  unfolding store_get store_delete
  store_get-store_delete later id j s = ground (arith, Dict.get-remove s.entries id j)

  start-live :
      (cfg : Config) (later : ℕ) (id : Text) (fresh : Option Text) (s : MemoryStore V)
      (values : Dict Text V)
      → id ≢ []
      → store_get later id s ≡ some values
      → start cfg later (some id) fresh s
        ≡ some (record { id = id; data_map = values; dirty = false; is_new = false }, [])
  unfolding start resume
  start-live cfg later [] fresh s values filled e = absurd (filled refl)
  start-live cfg later (c ∷ id) fresh s values filled e = rw (e, resume) refl

  -- A changed session that is saved is resumed with its data, by a request that brings its cookie
  -- before the time to live (two hours for 0) is over.
  pub start-save :
      (cfg : Config) (now later : ℕ) (sess : Session V) (fresh : Option Text) (s : MemoryStore V)
      → sess.dirty ≡ true
      → sess.id ≢ []
      → later ≤ now + ttl_or_default cfg.ttl
      → start cfg later (some sess.id) fresh (save cfg now sess s).1
        ≡ some
            (record { id = sess.id; data_map = sess.data_map; dirty = false; is_new = false }, [])
  unfolding save
  start-save cfg now later sess fresh s dirty filled le = rw (dirty) (
      start-live cfg later sess.id fresh (store_set now sess.id sess.data_map cfg.ttl s)
        sess.data_map filled
        (store_get-store_set now later sess.id sess.id sess.data_map cfg.ttl s
          ∙ ground (arith, ==-refl sess.id)))

  get_value-set_value :
      (key : Text) (v : V) (sess : Session V) (j : Text)
      → get_value j (set_value key v sess) ≡ (if key == j then some v else get_value j sess)
  unfolding get_value set_value
  get_value-set_value key v sess j = Dict.get-put sess.data_map key j v

  get_flash-there :
      (key : Text) (v : V) (sess : Session V)
      → get_value (flash_key key) sess ≡ some v
      → get_flash key sess ≡ (some v, delete_value (flash_key key) sess)
  unfolding get_flash
  get_flash-there key v sess e = rw (e, get_flash) refl

  get_flash-gone :
      (key : Text) (sess : Session V)
      → get_value (flash_key key) sess ≡ none
      → get_flash key sess ≡ (none, sess)
  unfolding get_flash
  get_flash-gone key sess e = rw (e, get_flash) refl

  get_value-delete_value :
      (key : Text) (sess : Session V) (j : Text)
      → get_value j (delete_value key sess) ≡ (if key == j then none else get_value j sess)
  unfolding get_value delete_value
  get_value-delete_value key sess j = Dict.get-remove sess.data_map key j

  dirty-delete_value : (key : Text) (sess : Session V) → (delete_value key sess).dirty ≡ true
  unfolding delete_value
  dirty-delete_value key sess = refl

  -- A flashed value is read once: GetFlash returns it, then nothing is there, and no other key has
  -- changed.
  pub get_flash-flash :
      (key : Text) (v : V) (sess : Session V) (j : Text)
      → let r = get_flash key (flash key v sess) in
        (r.0 ≡ some v)
        × ((get_flash key r.1).0 ≡ none)
        × (get_value j r.1 ≡ (if flash_key key == j then none else get_value j sess))
        × (r.1.dirty ≡ true)
  unfolding flash
  get_flash-flash key v sess j =
      let k = flash_key key in
      let sess' = set_value k v sess in
      let there : get_value k sess' ≡ some v =
        get_value-set_value k v sess k ∙ ground (arith, ==-refl k) in
      let gone = get_value-delete_value k sess' in
      let empty : get_value k (delete_value k sess') ≡ none = gone k ∙ ground (arith, ==-refl k) in
      let rest : get_value j (delete_value k sess') ≡ (if k == j then none else get_value j sess) =
        gone j ∙ ground (arith, get_value-set_value k v sess j) in
      rw (get_flash-there key v sess' there) (
        refl,
        ap (λ (r : Option V × Session V). r.0) (get_flash-gone key (delete_value k sess') empty),
        rest,
        dirty-delete_value k sess',
      )

  store_get-found :
      (later : ℕ) (id : Text) (s : MemoryStore V) (e : StoredEntry V)
      → Dict.get s.entries id ≡ some e
      → store_get later id s ≡ (if ltb e.expires_at later then none else some e.data_map)
  unfolding store_get
  store_get-found later id s e found = rw found refl

  -- What is at an id after an entry, if there is one, was stored again under a new id.
  store_get-restore :
      (now later : ℕ) (new_id j : Text) (o : Option (StoredEntry V)) (s : MemoryStore V)
      → store_get later j (restore now new_id o s) ≡ (elim o [
        | none ↦ store_get later j s
        | some e ↦
            if new_id == j
            then (if ltb (now + ttl_or_default (e.expires_at - now)) later
                then none
                else some e.data_map)
            else store_get later j s
      ])
  unfolding restore
  store_get-restore now later new_id j none s = refl
  store_get-restore now later new_id j (some e) s =
      store_get-store_set now later new_id j e.data_map (e.expires_at - now) s

  store_get-other :
      (now later : ℕ) (new_id j : Text) (o : Option (StoredEntry V)) (s : MemoryStore V)
      → (new_id == j) ≡ false
      → store_get later j (restore now new_id o s) ≡ store_get later j s
  store_get-other now later new_id j none s h = store_get-restore now later new_id j none s
  store_get-other now later new_id j (some e) s h =
      store_get-restore now later new_id j (some e) s ∙ ground (arith, h)

  -- When an id is regenerated, the old one has no data at any later time, no third id changes, and
  -- the new one has the data for as long as the old one would have had it. But where the old one had
  -- run out, the new one has its data for two hours.
  pub store_regenerate_lem :
      (now later : ℕ) (old_id new_id j : Text) (s : MemoryStore V)
      → (old_id == new_id) ≡ false
      → now ≤ later
      → let r = (store_regenerate now old_id (some new_id) s).1 in
        (store_get later old_id r ≡ none)
        × ((old_id == j) ≡ false
            → (new_id == j) ≡ false
            → store_get later j r ≡ store_get later j s)
        × ((e : StoredEntry V)
            → Dict.get s.entries old_id ≡ some e
            → (now < e.expires_at → store_get later new_id r ≡ store_get later old_id s)
              × (e.expires_at ≤ now
                  → later ≤ now + two_hours
                  → store_get later new_id r ≡ some e.data_map))
  unfolding store_regenerate
  store_regenerate_lem now later old_id new_id j s differ le =
      let s' = store_delete old_id s in
      let back : (new_id == old_id) ≡ false =
        Bool-false (new_id == old_id)
          (λ h. ground (arith, ==_iff new_id old_id, ==_iff old_id new_id)) in
      (
        store_get-other now later new_id old_id (Dict.get s.entries old_id) s' back
            ∙ store_get-store_delete later old_id old_id s
            ∙ ground (arith, ==-refl old_id),
        λ a b.
            store_get-other now later new_id j (Dict.get s.entries old_id) s' b
            ∙ store_get-store_delete later old_id j s
            ∙ ground (arith, a),
        λ e found.
            let moved : store_get later new_id (restore now new_id (Dict.get s.entries old_id) s')
                ≡ (if ltb (now + ttl_or_default (e.expires_at - now)) later
                    then none
                    else some e.data_map) =
              ap (λ o. store_get later new_id (restore now new_id o s')) found
              ∙ store_get-restore now later new_id new_id (some e) s'
              ∙ ground (arith, ==-refl new_id) in
            (
              λ alive. moved ∙ ground arith ∙ sym (store_get-found later old_id s e found),
              λ over soon. moved ∙ ground arith,
            ),
      )
