-- ===== src/Db/Tests.antt =====
-- Runs of the database's start, sessions and end.
use va_enp_api.Prelude.{ℕ, String, ◌≡◌, refl, false, some, [], ◌∷◌}
use va_enp_api.Effects.{
  BaseException, exception, value_error, cancelled_error, other_error, index_error, ok, err, Exec,
  raise,
}
use va_enp_api.Db.Uris.{napi_db_uri}
use va_enp_api.Db.Sessions.{
  DbState, no_engines, create_engines, init_napi_metadata, init_db, close_db,
  get_read_session_with_depends, get_read_session_with_context, get_write_session_with_depends,
  get_write_session_with_context,
}
use va_enp_api.Db.Laws.{Disposes, close_db-Disposes, IsClosed, get_session-IsClosed}
use va_enp_api.Db.Samples.{made, reflected, opened, closed, Log, sql, addresses, fresh_log}

abbrev started : String → DbState Log String
started stuck = record {
  engine_napi_read = some "read";
  engine_napi_write = some "write";
  outside = record {
    events = reflected "read" ∷ made "write" ∷ made "read" ∷ [];
    sessions = 0;
    stuck_engine = stuck;
  };
}

starts : init_db sql addresses false (no_engines (fresh_log "")) ≡ (ok tt, started "")
unfolding init_db create_engines init_napi_metadata
starts = refl

-- A request that is cancelled while it has a session.
abbrev cancelled : ℕ → Exec (DbState Log String) BaseException (Unit {0})
cancelled session = raise (cancelled_error false)

no_engine :
    (get_read_session_with_depends sql cancelled (no_engines (fresh_log ""))).0
    ≡ err (
        exception
          (value_error ("The db read engine has not been initialized. None type received.")))
unfolding get_read_session_with_depends
no_engine = refl

closed_after_cancellation :
    (get_write_session_with_context sql cancelled (started "")).1.outside.events
    ≡ closed 0 ∷ opened 0 ∷ reflected "read" ∷ made "write" ∷ made "read" ∷ []
unfolding get_write_session_with_context
closed_after_cancellation = refl

write_stays_open :
    close_db sql (started "read") ≡ (err (exception (other_error "OSError")), started "read")
unfolding close_db
write_stays_open = refl

no_scheme : napi_db_uri "localhost" ≡ err index_error
unfolding napi_db_uri
no_scheme = refl

close_db-Disposes_example :
    Disposes sql "read" "write" (started "read") (close_db sql (started "read"))
close_db-Disposes_example = close_db-Disposes sql "read" "write" (started "read") refl refl

get_session-IsClosed_example :
    IsClosed sql "read" cancelled
      (started "")
      (get_read_session_with_depends sql cancelled (started ""))
    × IsClosed sql "read" cancelled
        (started "")
        (get_read_session_with_context sql cancelled (started ""))
    × IsClosed sql "write" cancelled
        (started "")
        (get_write_session_with_depends sql cancelled (started ""))
    × IsClosed sql "write" cancelled
        (started "")
        (get_write_session_with_context sql cancelled (started ""))
get_session-IsClosed_example =
    get_session-IsClosed sql "read" "write" cancelled (started "") refl refl
