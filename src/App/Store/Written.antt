-- ===== src/App/Store/Written.antt =====
-- internal/application/env.go, scale.go, configurations.go, services.go: the secret of an application
-- that an update writes.
use epinio.Base.{[], Option, some, ◌≡◌, refl, get_or, Result, ok, err, arith}
use epinio.Text.{Text}
use epinio.Text.Maps.{Map}
use epinio.App.Store.{
  AppRef, Area, AppSecret, ApiError, conflict, Kube, secret_name, fresh, create_secret,
  load_or_create, update_once, update, contents_of,
}

-- Runs of a call up to the one whose outcome counts: each earlier one ended in a conflict.
pub data Runs {W : Type 0} (call : W → Result ApiError (Unit {0}) × W)
    : W → Result ApiError (Unit {0}) × W → Type 0 where
  final : (w : W) → Runs call w (call w)
  repeated :
      {w w' : W} {out : Result ApiError (Unit {0}) × W}
      → call w ≡ (err conflict, w')
      → Runs call w' out
      → Runs call w out

-- A state that conflicts alone lead to, one in each round.
pub data Conflicts {W : Type 0} (call : W → Result ApiError (Unit {0}) × W) : W → W → Type 0 where
  here : (w : W) → Conflicts call w w
  further : {w v u : W} → call w ≡ (err conflict, v) → Conflicts call v u → Conflicts call w u

-- What the code relies on of the API: a secret is found under its name; after a write that
-- succeeds its contents are read as those written, where an empty map may be read as none; a retry runs the call until it
-- does not end in a conflict, or it gives up.
pub record IsStore {W : Type 0} (api : Kube W) : Type 0 where
  pub named :
      (ns name : Text) (s : AppSecret) (w : W) → api.get_secret ns name w ≡ ok s → s.name ≡ name
  pub updates :
      (ns : Text) (s : AppSecret) (w w' : W)
      → api.update_secret ns s w ≡ (ok tt, w')
      → (t : AppSecret) × (api.get_secret ns s.name w' ≡ ok t)
        × (get_or t.contents [] ≡ get_or s.contents [])
  pub retries : (call : W → Result ApiError (Unit {0}) × W) (w : W) → Runs call w (api.retry call w)

module _ {W : Type 0} (api : Kube W) (sha1_hex : Text → Text) (area : Area) (ref : AppRef) where
  create_secret_name :
      (w w' : W) (s : AppSecret)
      → create_secret api sha1_hex area ref w ≡ (ok s, w')
      → s.name ≡ secret_name api sha1_hex area ref
  unfolding create_secret
  create_secret_name w w' s e = ground arith

  load_or_create_name :
      IsStore api
      → (w w' : W) (s : AppSecret) → load_or_create api sha1_hex area ref w ≡ (ok s, w')
      → s.name ≡ secret_name api sha1_hex area ref
  unfolding load_or_create
  load_or_create_name store w w' s e = ground (
    arith,
    create_secret_name w w' s,
    store.named ref.namespace (secret_name api sha1_hex area ref) s w,
  )

  -- The last round of an update that succeeds: that only conflicts came before it, what it read,
  -- and what is read afterwards.
  record IsWritten (modify : Map Text → Map Text) (w w' : W) : Type 0 where
    pub before : W
    pub conflicts : Conflicts (update_once api sha1_hex area ref modify) w before
    pub read : AppSecret
    pub between : W
    pub reading : load_or_create api sha1_hex area ref before ≡ (ok read, between)
    pub stored :
        contents_of api sha1_hex area ref w' ≡ (ok (modify (get_or read.contents (fresh area))), w')

  contents_of_stored :
      (w : W) (t : AppSecret) (m : Map Text)
      → api.get_secret ref.namespace (secret_name api sha1_hex area ref) w ≡ ok t
      → get_or t.contents [] ≡ m
      → contents_of api sha1_hex area ref w ≡ (ok m, w)
  unfolding contents_of load_or_create
  contents_of_stored w t m found is = ground arith

  update_once-IsWritten :
      (store : IsStore api) (modify : Map Text → Map Text) (w w' : W)
      → update_once api sha1_hex area ref modify w ≡ (ok tt, w')
      → IsWritten modify w w'
  unfolding update_once
  update_once-IsWritten store modify w w' e =
      by_load (load_or_create api sha1_hex area ref w) refl e
    where
      by_load :
          (out : Result ApiError AppSecret × W)
          → load_or_create api sha1_hex area ref w ≡ out
          → elim (out.0) [
            | err f ↦ (err f, out.1)
            | ok secret ↦
                api.update_secret ref.namespace
                  (record secret { contents = some (modify (get_or secret.contents (fresh area))) })
                  out.1
          ]
            ≡ (ok tt, w')
          → IsWritten modify w w'
      by_load (err f, w1) is k = absurd (cc)
      by_load (ok s, w1) is k =
          let new = record s { contents = some (modify (get_or s.contents (fresh area))) } in
          let (t, found, same) = store.updates ref.namespace new w1 w' k in
          record {
            before = w;
            conflicts = here w;
            read = s;
            between = w1;
            reading = is;
            stored =
                contents_of_stored w' t (modify (get_or s.contents (fresh area)))
                  (rw (← load_or_create_name store w w1 s is) found) same;
          }

  update-IsWritten :
      (store : IsStore api) (modify : Map Text → Map Text) (w w' : W)
      → update api sha1_hex area ref modify w ≡ (ok tt, w')
      → IsWritten modify w w'
  unfolding update
  update-IsWritten store modify w w' e =
      by_runs (store.retries (update_once api sha1_hex area ref modify) w) e
    where
      by_runs :
          {v : W} {out : Result ApiError (Unit {0}) × W}
          → Runs (update_once api sha1_hex area ref modify) v out
          → out ≡ (ok tt, w')
          → IsWritten modify v w'
      by_runs (final v) k = update_once-IsWritten store modify v w' k
      by_runs (repeated c r) k =
          let h = by_runs r k in
          record {
            before = h.before;
            conflicts = further c h.conflicts;
            read = h.read;
            between = h.between;
            reading = h.reading;
            stored = h.stored;
          }

  -- What a round of the update reads, where only conflicts came before it.
  abbrev pub Reads : (Map Text → Map Text) → W → Option (Map Text) → Type 0
  Reads modify w old =
      (v : W) × Conflicts (update_once api sha1_hex area ref modify) w v
      × ((contents_of api sha1_hex area ref v).0 ≡ ok (get_or old []))

  contents_of_read :
      (v u : W) (s : AppSecret)
      → load_or_create api sha1_hex area ref v ≡ (ok s, u)
      → (contents_of api sha1_hex area ref v).0 ≡ ok (get_or s.contents [])
  unfolding contents_of
  contents_of_read v u s e = ground arith

  -- If an update of an application's secret succeeds, what is read afterwards is the change of what
  -- its last round has read, and only conflicts came before that round.
  pub update-contents_of :
      (store : IsStore api) (modify : Map Text → Map Text) (w w' : W)
      → update api sha1_hex area ref modify w ≡ (ok tt, w')
      → (old : Option (Map Text)) × Reads modify w old
        × (contents_of api sha1_hex area ref w' ≡ (ok (modify (get_or old (fresh area))), w'))
  update-contents_of store modify w w' e =
      let h = update-IsWritten store modify w w' e in
      (
        h.read.contents,
        (h.before, h.conflicts, contents_of_read h.before h.between h.read h.reading),
        h.stored,
      )
