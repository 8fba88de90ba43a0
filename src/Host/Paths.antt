-- ===== src/Host/Paths.antt =====
-- host/default_path_resolver.go: the sessions of a host by the path under which a join asks for them.
-- Every method holds the lock, so the calls run one after another.
use abyss_core.Prelude.{
  String, string_eq, Bool, true, false, List, [], ◌∷◌, Option, none, some, Mapping, put, put-ne,
  ◌≡◌, ◌≢◌, refl, ap, ◌∙◌,
}
use abyss_core.Interfaces.{Uuid}

pub record SimplePathResolver : Type 0 where
  pub path_map : Mapping String Uuid

unfoldable pub new_simple_path_resolver : SimplePathResolver
new_simple_path_resolver = record { path_map = λ k. none }

-- With what the map has at the path.
set_at : Option Uuid → String → Uuid → SimplePathResolver → Bool × SimplePathResolver
set_at (some taken) path dest r = (false, r)
set_at none path dest r = (true, record { path_map = put path (some dest) r.path_map })

unfoldable pub try_set_mapping : String → Uuid → SimplePathResolver → Bool × SimplePathResolver
unfolding set_at
try_set_mapping path dest r = set_at (r.path_map path) path dest r

unfoldable pub delete_mapping : String → SimplePathResolver → SimplePathResolver
delete_mapping path r = record { path_map = put path none r.path_map }

-- The peer that asks is not looked at.
unfoldable pub path_to_session_id : String → String → SimplePathResolver → Option Uuid
path_to_session_id path peer_hash r = r.path_map path

pub data PathCall : Type 0 where
  try_set : String → Uuid → PathCall
  delete : String → PathCall

unfoldable pub path_call : PathCall → SimplePathResolver → SimplePathResolver
unfolding try_set_mapping delete_mapping
path_call (try_set path dest) r = (try_set_mapping path dest r).1
path_call (delete path) r = delete_mapping path r

abbrev pub path_calls : List PathCall → SimplePathResolver → SimplePathResolver
path_calls [] r = r
path_calls (c ∷ cs) r = path_calls cs (path_call c r)

-- None of the calls deletes the path.
abbrev pub Keeps : String → List PathCall → Type 0
Keeps path [] = Unit {0}
Keeps path (try_set other dest ∷ cs) = Keeps path cs
Keeps path (delete other ∷ cs) = (other ≢ path) × Keeps path cs

set-keeps :
    (path other : String) (sid dest : Uuid) (r : SimplePathResolver) (o : Option Uuid)
    → r.path_map other ≡ o
    → r.path_map path ≡ some sid
    → (set_at o other dest r).1.path_map path ≡ some sid
unfolding set_at
set-keeps path other sid dest r (some taken) full e = e
set-keeps path other sid dest r none empty e = put-ne other path (some dest) r.path_map apart ∙ e
  where
    apart : other ≢ path
    apart same = cc (ap r.path_map same)

-- A path that resolves to a session resolves to the same session, for every peer that asks, after any
-- calls of TrySetMapping and DeleteMapping that do not delete this path.
pub path_calls-keep :
    (path peer_hash : String) (sid : Uuid) (cs : List PathCall) (r : SimplePathResolver)
    → Keeps path cs
    → path_to_session_id path peer_hash r ≡ some sid
    → path_to_session_id path peer_hash (path_calls cs r) ≡ some sid
unfolding path_to_session_id path_call try_set_mapping
path_calls-keep path peer_hash sid [] r k e = e
path_calls-keep path peer_hash sid (try_set other dest ∷ cs) r k e =
    path_calls-keep path peer_hash sid cs _ k
      (set-keeps path other sid dest r (r.path_map other) refl e)
path_calls-keep path peer_hash sid (delete other ∷ cs) r k e =
    path_calls-keep path peer_hash sid cs _ (k.1) (put-ne other path none r.path_map k.0 ∙ e)
