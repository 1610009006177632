-- ===== src/Transport/Usb/Stream.antt =====
-- The writes to the accessory (host/src/transport/usb.rs).
use ord.Prelude.{
  ℕ, ◌+◌, ◌≤◌, ◌≡◌, refl, ap, subst, ◌∙◌, List, [], ◌∷◌, ◌++◌, Bool, true, false, ok, err, length,
  take, drop, All, arith,
}
use ord.Prelude.{append_assoc, take-append-drop, length-drop}
use ord.Transport.Usb.{
  BulkWrite, wrote, Written, returned, writing, after, write_rest, write_packet_sync,
}

-- All the bytes were written, or the stream is closed and the first of them were; a call that waits
-- has written the first of them.
abbrev pub IsWritten : List ℕ → Written → Type 0
IsWritten bytes (returned (ok _) is_closed done) = (is_closed ≡ false) × (done ≡ bytes)
IsWritten bytes (returned (err _) is_closed done) =
    (is_closed ≡ true) × ((back : List ℕ) × (done ++ back ≡ bytes))
IsWritten bytes (writing done) = (back : List ℕ) × (done ++ back ≡ bytes)

IsWritten-after :
    (front rest : List ℕ) (w : Written)
    → IsWritten rest w
    → IsWritten (front ++ rest) (after front w)
IsWritten-after front rest (returned (ok _) is_closed done) h = (h.0, ap (λ t. front ++ t) h.1)
IsWritten-after front rest (returned (err _) is_closed done) (c, (back, e)) =
    (c, (back, append_assoc front done back ∙ ap (λ t. front ++ t) e))
IsWritten-after front rest (writing done) (back, e) =
    (back, append_assoc front done back ∙ ap (λ t. front ++ t) e)

write_rest-IsWritten :
    (bytes : List ℕ) (answers : List BulkWrite) → IsWritten bytes (write_rest bytes answers)
unfolding write_rest
write_rest-IsWritten [] answers = (refl, refl)
write_rest-IsWritten (b ∷ bs) [] = (b ∷ bs, refl)
write_rest-IsWritten (b ∷ bs) (wrote n ∷ answers) =
    let more = write_rest (drop n (b ∷ bs)) answers in
    subst (λ t. IsWritten t (after (take n (b ∷ bs)) more)) (take-append-drop n (b ∷ bs))
      (IsWritten-after (take n (b ∷ bs)) (drop n (b ∷ bs)) more
        (write_rest-IsWritten (drop n (b ∷ bs)) answers))
write_rest-IsWritten (b ∷ bs) (BulkWrite.timed_out ∷ answers) =
    write_rest-IsWritten (b ∷ bs) answers
write_rest-IsWritten (b ∷ bs) (BulkWrite.broken ∷ answers) = (refl, (b ∷ bs, refl))

-- Whatever the device answers, a call of `write_packet_sync` that succeeds has written the bytes, once
-- and in order, and one that fails leaves the stream closed with the first of them written.
pub write_packet_sync-IsWritten :
    (is_closed : Bool) (bytes : List ℕ) (answers : List BulkWrite)
    → IsWritten bytes (write_packet_sync is_closed bytes answers)
unfolding write_packet_sync
write_packet_sync-IsWritten true bytes answers = (refl, (bytes, refl))
write_packet_sync-IsWritten false bytes answers = write_rest-IsWritten bytes answers

-- The bytes that the device takes, if no transfer breaks.
abbrev pub taken : List BulkWrite → ℕ
taken [] = 0
taken (wrote n ∷ answers) = n + taken answers
taken (_ ∷ answers) = taken answers

abbrev pub Holds : BulkWrite → Type 0
Holds BulkWrite.broken = ⊥
Holds _ = Unit {0}

write_rest-total :
    (bytes : List ℕ) (answers : List BulkWrite)
    → All Holds answers
    → length bytes ≤ taken answers
    → write_rest bytes answers ≡ returned (ok tt) false bytes
unfolding write_rest
write_rest-total [] answers h le = refl
write_rest-total (b ∷ bs) [] h le = absurd (omega arith)
write_rest-total (b ∷ bs) (wrote n ∷ answers) h le =
    ap (after (take n (b ∷ bs)))
      (write_rest-total (drop n (b ∷ bs)) answers h.1 (omega (arith, length-drop n (b ∷ bs), le)))
    ∙ ap (returned (ok tt) false) (take-append-drop n (b ∷ bs))
write_rest-total (b ∷ bs) (BulkWrite.timed_out ∷ answers) h le =
    write_rest-total (b ∷ bs) answers h.1 le
write_rest-total (b ∷ bs) (BulkWrite.broken ∷ answers) h le = elim h.0 [ ]

-- However often the device times out, a write on an open stream ends when the device has taken as many
-- bytes as there are, if no transfer breaks.
pub write_packet_sync-total :
    (bytes : List ℕ) (answers : List BulkWrite)
    → All Holds answers
    → length bytes ≤ taken answers
    → write_packet_sync false bytes answers ≡ returned (ok tt) false bytes
unfolding write_packet_sync
write_packet_sync-total bytes answers h le = write_rest-total bytes answers h le
