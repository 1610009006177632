-- ===== src/Session/Writer/Tests.antt =====
-- A run of the write worker of host/src/session/mod.rs.
use ord.Prelude.{ℕ, ◌≡◌, refl, List, [], ◌∷◌, ◌++◌, true, false}
use ord.Transport.Usb.{wrote, timed_out, broken}
use ord.Session.Writer.{WriteTurn, ended, write_worker}
use ord.Session.Writer.Delivery.{bus, stream_of, write_worker-IsPrefix}

-- The second packet breaks off, and the third is never tried.
abbrev turns : List WriteTurn
turns =
    record { is_closed = false; packet = 1 ∷ 2 ∷ []; answers = wrote 1 ∷ timed_out ∷ wrote 1 ∷ [] }
    ∷ record { is_closed = false; packet = 3 ∷ 4 ∷ []; answers = wrote 1 ∷ broken ∷ [] }
    ∷ record { is_closed = true; packet = 5 ∷ []; answers = wrote 1 ∷ [] }
    ∷ []

breaks_off : write_worker turns ≡ ended (1 ∷ 2 ∷ 3 ∷ [])
unfolding write_worker
breaks_off = refl

write_worker-IsPrefix_example :
    (back : List ℕ) × (bus (write_worker turns) ++ back ≡ stream_of turns)
write_worker-IsPrefix_example = write_worker-IsPrefix turns
