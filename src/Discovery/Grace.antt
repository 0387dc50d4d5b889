-- ===== src/Discovery/Grace.antt =====
-- The grace of a removal in src-tauri/src/discovery/browser.rs: a session that is seen again in it.
use dash_drop.Base.{
  ℕ, String, Bool, some, List, ◌≡◌, ◌∙◌, ap, ◌<◌, unwrap_or, option_bind, lookup,
  lookup-insert_self, string_eq, arith,
}
use dash_drop.Types.Device.{SessionInfo}
use dash_drop.Discovery.{Discovery, should_apply_deferred_remove}
use dash_drop.Discovery.Calls.{
  Sighting, new_device, seen_device, upsert, DeferredRemove, session_of_entry, apply_to_session,
  apply_deferred_remove,
}
use dash_drop.Discovery.Sound.{SameTables}

-- The session as the sighting leaves it.
session_of_entry-upsert :
    (g : Sighting) (aliases : List String) (trusted : Bool) (now instant : ℕ) (s : Discovery)
    → session_of_entry
        (record { fingerprint = g.fp; session_id = g.session_id })
        (upsert g aliases trusted now instant s).devices
      ≡ some (record {
        session_id = g.session_id;
        addrs = g.addrs;
        last_seen_unix = now;
        last_seen_instant = instant;
      })
unfolding upsert seen_device
session_of_entry-upsert g aliases trusted now instant s =
    let d =
      seen_device g trusted now instant
        (unwrap_or (lookup g.fp s.devices) (new_device g trusted)) in
    ap (λ o. option_bind o (λ d. lookup g.session_id d.sessions))
      (lookup-insert_self g.fp d s.devices)
    ∙ lookup-insert_self g.session_id _
        (unwrap_or (lookup g.fp s.devices) (new_device g trusted)).sessions

apply_to_session_refreshed :
    (later : ℕ) (r : DeferredRemove) (x : SessionInfo) (s : Discovery)
    → r.observed_last_seen < x.last_seen_unix
    → SameTables s (apply_to_session later r (some x) s)
unfolding apply_to_session should_apply_deferred_remove
apply_to_session_refreshed later r x s h = ground arith

-- A session that a service or a beacon shows again, at a time after the last sighting that the
-- removal had observed, outlives the removal: at the end of the grace, whenever that is, the
-- devices and the index are left as they are.
pub apply_deferred_remove-upsert :
    (g : Sighting) (aliases : List String) (trusted : Bool) (now instant later : ℕ)
    (r : DeferredRemove) (s : Discovery)
    → r.fp ≡ g.fp
    → r.session_id ≡ g.session_id
    → r.observed_last_seen < now
    → SameTables
        (upsert g aliases trusted now instant s)
        (apply_deferred_remove later r (upsert g aliases trusted now instant s))
unfolding apply_deferred_remove
apply_deferred_remove-upsert g aliases trusted now instant later r s same_fp same_id refreshed =
    let seen = upsert g aliases trusted now instant s in
    rw (same_fp, same_id, session_of_entry-upsert g aliases trusted now instant s)
      (apply_to_session_refreshed later (record r { fp = g.fp; session_id = g.session_id })
        (record {
          session_id = g.session_id;
          addrs = g.addrs;
          last_seen_unix = now;
          last_seen_instant = instant;
        })
        seen refreshed)
