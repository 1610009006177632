-- ===== src/Session/Loop/Connection.antt =====
-- The TCP connection under the session of host/src/session/mod.rs: a connection that has failed
-- takes nothing more.
use ord.Prelude.{
  ℕ, ◌%◌, ◌^◌, length, Result-cases, ◌≡◌, refl, sym, ap, ◌∙◌, List, [], ◌++◌, Bool, true, false,
  Bool-cases, inl, inr, Result, ok, err, append_assoc, append-nil, arith,
}
use ord.Protocol.Packet.{OrdPacket, encode_packet, encode_header, new_packet, new_header}
use ord.Protocol.Message.{msg_video_data}
use ord.Transport.Tcp.{write_packet, write_frame_data, then_write}
use ord.Transport.Tcp.Sink.{StreamError, ByteSink}

-- Whether the connection has failed is read off its state. On a sound one `write_all` puts all the
-- bytes on the connection, or fails when it has put some of them there; a failed one takes nothing and stays failed.
pub record IsConnection (sink : ByteSink) : Type 0 where
  pub failed : sink.State → Bool
  pub write_all-ok :
      (bytes : List ℕ) (s : sink.State)
      → failed s ≡ false
      → (sink.write_all bytes s).0 ≡ ok tt
      → (failed (sink.write_all bytes s).1 ≡ false)
        × (sink.taken (sink.write_all bytes s).1 ≡ sink.taken s ++ bytes)
  pub write_all-err :
      (bytes : List ℕ) (s : sink.State) (e : StreamError)
      → failed s ≡ false
      → (sink.write_all bytes s).0 ≡ err e
      → (failed (sink.write_all bytes s).1 ≡ true)
        × ((back : List ℕ) × (sink.taken (sink.write_all bytes s).1 ++ back
              ≡ sink.taken s ++ bytes))
  pub write_all_keeps :
      (bytes : List ℕ) (s : sink.State)
      → failed s ≡ true
      → (failed (sink.write_all bytes s).1 ≡ true)
        × (sink.taken (sink.write_all bytes s).1 ≡ sink.taken s)

module _ (sink : ByteSink) (law : IsConnection sink) where
  open sink use {State, taken, write_all}
  open law use {failed}

  -- From `s` to `s'` the bytes went onto the connection: all of them, or, if it failed, the first of
  -- them; if it had failed before, none.
  pub record Puts (bytes : List ℕ) (s s' : State) : Type 0 where
    pub all : failed s ≡ false → failed s' ≡ false → taken s' ≡ taken s ++ bytes
    pub some_of :
        failed s ≡ false
        → failed s' ≡ true
        → (back : List ℕ) × (taken s' ++ back ≡ taken s ++ bytes)
    pub stays : failed s ≡ true → (failed s' ≡ true) × (taken s' ≡ taken s)

  -- The three cases: the bytes are on the connection; it failed, and the first of them are; it had
  -- failed before, and none is.
  pub data Sends (bytes : List ℕ) (s s' : State) : Type 0 where
    whole : failed s ≡ false → failed s' ≡ false → taken s' ≡ taken s ++ bytes → Sends bytes s s'
    cut :
        (back : List ℕ)
        → failed s ≡ false
        → failed s' ≡ true
        → taken s' ++ back ≡ taken s ++ bytes
        → Sends bytes s s'
    refused : failed s ≡ true → failed s' ≡ true → taken s' ≡ taken s → Sends bytes s s'

  pub Puts-Sends : (bytes : List ℕ) (s s' : State) → Puts bytes s s' → Sends bytes s s'
  Puts-Sends bytes s s' p = elim (Bool-cases (failed s)) [
    | inl f ↦ let (f', e) = p.stays f in refused f f' e
    | inr up ↦ elim (Bool-cases (failed s')) [
      | inl f' ↦ let (back, e) = p.some_of up f' in cut back up f' e
      | inr up' ↦ whole up up' (p.all up up')
    ]
  ]

  pub Puts-nil : (s : State) → Puts [] s s
  Puts-nil s = record {
    all = λ _ _. sym (append-nil (taken s));
    some_of = λ a b. absurd (ground (arith, a, b));
    stays = λ a. (a, refl);
  }

  -- A failed connection is as good as one with more bytes to come.
  pub Puts-failed : (bytes : List ℕ) (s : State) → failed s ≡ true → Puts bytes s s
  Puts-failed bytes s f = record {
    all = λ a b. absurd (ground (arith, a, f));
    some_of = λ a b. absurd (ground (arith, a, f));
    stays = λ a. (a, refl);
  }

  pub Puts-append :
      (xs ys : List ℕ) (s s' s'' : State) → Puts xs s s' → Puts ys s' s'' → Puts (xs ++ ys) s s''
  Puts-append xs ys s s' s'' p q = record {
    all = λ a b. elim (Bool-cases (failed s')) [
      | inl f ↦ absurd (let more = q.stays f in ground (arith, more.0, b))
      | inr f ↦ q.all f b ∙ ap (λ t. t ++ ys) (p.all a f) ∙ append_assoc (taken s) xs ys
    ];
    some_of = λ a b. elim (Bool-cases (failed s')) [
      | inl f ↦
          let (back, e) = p.some_of a f in
          (
            back ++ ys,
            ap (λ t. t ++ (back ++ ys)) (q.stays f).1
                ∙ sym (append_assoc (taken s') back ys)
                ∙ ap (λ t. t ++ ys) e
                ∙ append_assoc (taken s) xs ys,
          )
      | inr f ↦
          let (back, e) = q.some_of f b in
          (back, e ∙ ap (λ t. t ++ ys) (p.all a f) ∙ append_assoc (taken s) xs ys)
    ];
    stays = λ a.
        let first = p.stays a in let second = q.stays first.0 in (second.0, second.1 ∙ first.1);
  }

  -- A write: what it put there, and that its error is one of the connection.
  pub record Attempt (bytes : List ℕ) (s : State) (o : Result StreamError (Unit {0}) × State)
      : Type 0 where
    pub puts : Puts bytes s o.1
    pub on_err : (e : StreamError) → o.0 ≡ err e → failed o.1 ≡ true

  write_all-Attempt : (bytes : List ℕ) (s : State) → Attempt bytes s (write_all bytes s)
  write_all-Attempt bytes s = record {
    puts = record {
      all = λ a b. elim (Result-cases (write_all bytes s).0) [
        | inl (tt, e) ↦ (law.write_all-ok bytes s a e).1
        | inr (x, e) ↦ absurd (let f = law.write_all-err bytes s x a e in ground (arith, f.0, b))
      ];
      some_of = λ a b. elim (Result-cases (write_all bytes s).0) [
        | inl (tt, e) ↦ absurd (let f = law.write_all-ok bytes s a e in ground (arith, f.0, b))
        | inr (x, e) ↦ (law.write_all-err bytes s x a e).1
      ];
      stays = λ a. law.write_all_keeps bytes s a;
    };
    on_err = λ x e. elim (Bool-cases (failed s)) [
      | inl f ↦ (law.write_all_keeps bytes s f).0
      | inr f ↦ (law.write_all-err bytes s x f e).0
    ];
  }

  then_write-Attempt :
      (xs ys : List ℕ) (s : State) (o : Result StreamError (Unit {0}) × State)
      → Attempt xs s o
      → Attempt (xs ++ ys) s (then_write sink o ys)
  then_write-Attempt xs ys s (ok tt, s') first =
      let second = write_all-Attempt ys s' in
      record { puts = Puts-append xs ys s s' _ first.puts second.puts; on_err = second.on_err }
  then_write-Attempt xs ys s (err e, s') first =
      let f = first.on_err e refl in
      record {
        puts = Puts-append xs ys s s' s' first.puts (Puts-failed ys s' f);
        on_err = λ x h. f;
      }

  pub write_packet-Attempt :
      (p : OrdPacket) (s : State) → Attempt (encode_packet p) s (write_packet sink p s)
  unfolding write_packet
  write_packet-Attempt p s = write_all-Attempt (encode_packet p) s

  pub write_frame_data-Attempt :
      (sequence flags : ℕ) (payload : List ℕ) (s : State)
      → Attempt
          (encode_packet (new_packet msg_video_data flags sequence payload))
          s
          (write_frame_data sink sequence flags payload s)
  unfolding write_frame_data encode_packet new_packet
  write_frame_data-Attempt sequence flags payload s =
      let header = new_header msg_video_data flags sequence (length payload % 2 ^ 32) in
      then_write-Attempt (encode_header header) payload s (write_all (encode_header header) s)
        (write_all-Attempt (encode_header header) s)
