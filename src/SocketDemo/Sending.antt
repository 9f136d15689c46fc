-- ===== src/SocketDemo/Sending.antt =====
-- What the client has received when the server has answered it.
use project_linux.Base.{
  ℕ, zero, suc, ◌+◌, ◌-◌, ◌≤◌, ◌<◌, ◌≡◌, refl, ap, sym, ◌∙◌, ◌⊎◌, inl, inr, Bool, Bool-cases, true,
  false, Option, none, some, List, ◌++◌, append_assoc, append-nil, length, take, drop, ltb,
  length-drop, take-take, take-whole, arith,
}
use project_linux.SocketDemo.{
  Sent, sent, interrupted, failed, Connection, response, response_size, request_size, send_all,
  handle_client,
}

module _ (C : Connection) where
  -- What is documented of a connection: what was sent on it so far, how many signals still come while it is sent on, and
  -- whether a `send` on it has failed. A `send` that succeeds sends some of the bytes, from the first on.
  pub record Documented : Type 0 where
    pub wire : C.State → List ℕ
    pub interrupts_left : C.State → ℕ
    pub is_broken : C.State → Bool
    pub receives :
        (n : ℕ) (s : C.State)
        → (wire (C.recv n s).1 ≡ wire s)
          × (interrupts_left (C.recv n s).1 ≤ interrupts_left s)
          × (is_broken (C.recv n s).1 ≡ is_broken s)
    pub sends :
        (data' : List ℕ) (s : C.State) {n : ℕ} {t : C.State}
        → 0 < length data'
        → C.send data' s ≡ (sent n, t)
        → (0 < n)
          × (n ≤ length data')
          × (wire t ≡ wire s ++ take n data')
          × (interrupts_left t ≤ interrupts_left s)
          × (is_broken t ≡ is_broken s)
    pub interrupts :
        (data' : List ℕ) (s : C.State) {t : C.State}
        → C.send data' s ≡ (interrupted, t)
        → (wire t ≡ wire s) × (interrupts_left t < interrupts_left s) × (is_broken t ≡ is_broken s)
    pub fails :
        (data' : List ℕ) (s : C.State) {t : C.State}
        → C.send data' s ≡ (failed, t)
        → (wire t ≡ wire s) × (is_broken t ≡ true)

  module _ (D : Documented) where
    -- So many bytes of the data were sent behind what was there.
    abbrev Reached : List ℕ → List ℕ → ℕ → C.State → Type 0
    Reached before data' done s = (D.wire s ≡ before ++ take done data') × (D.is_broken s ≡ false)

    -- All of the data was sent; or a `send` failed behind a part of it.
    abbrev pub Sends : List ℕ → List ℕ → Option Bool × C.State → Type 0
    Sends before data' (r, t) =
        ((r ≡ some true) × (D.is_broken t ≡ false) × (D.wire t ≡ before ++ data'))
        ⊎ ((r ≡ some false)
            × (D.is_broken t ≡ true)
            × ((k : ℕ) × (k < length data') × (D.wire t ≡ before ++ take k data')))

    -- The next `send` yields `o`, where the fuel is enough for what is left.
    sent_more :
        (fuel done : ℕ) (before data' : List ℕ) (s : C.State)
        → ((done' : ℕ) (t : C.State)
            → done' ≤ length data'
            → (length data' - done') + D.interrupts_left t ≤ fuel
            → Reached before data' done' t
            → Sends before data' (send_all C fuel done' data' t))
        → done < length data'
        → (length data' - done) + D.interrupts_left s ≤ suc fuel
        → Reached before data' done s
        → (n : Sent) (t : C.State) → C.send (drop done data') s ≡ (n, t)
        → Sends before data' (elim n [
          | sent k ↦ send_all C fuel (done + k) data' t
          | interrupted ↦ send_all C fuel done data' t
          | failed ↦ (some false, t)
        ])
    sent_more fuel done before data' s rest more enough (at, whole) (sent k) t e =
        let rest_length = length-drop done data' in
        let (some_sent, fits, w, left, same) =
          D.sends (drop done data') s (omega (arith, more, rest_length)) e in
        rest (done + k) t (omega (arith, fits, rest_length, more))
          (omega (arith, enough, left, some_sent, more))
          (
            w
                ∙ ap (λ x. x ++ take k (drop done data')) at
                ∙ append_assoc before (take done data') (take k (drop done data'))
                ∙ ap (λ x. before ++ x) (take-take done k data'),
            same ∙ whole,
          )
    sent_more fuel done before data' s rest more enough (at, whole) interrupted t e =
        let (w, left, same) = D.interrupts (drop done data') s e in
        rest done t (omega (arith, more)) (omega (arith, enough, left)) (w ∙ at, same ∙ whole)
    sent_more fuel done before data' s rest more enough (at, whole) failed t e =
        let (w, broken) = D.fails (drop done data') s e in inr (refl, broken, (done, more, w ∙ at))

    all_sent :
        (done : ℕ) (before data' : List ℕ) (s : C.State)
        → ltb done (length data') ≡ false
        → Reached before data' done s
        → Sends before data' (some true, s)
    all_sent done before data' s h (at, whole) =
        inl (refl, whole, at ∙ ap (λ x. before ++ x) (take-whole done data' (ground (arith, h))))

    send_all-Sends :
        (fuel done : ℕ) (before data' : List ℕ) (s : C.State)
        → done ≤ length data'
        → (length data' - done) + D.interrupts_left s ≤ fuel
        → Reached before data' done s
        → Sends before data' (send_all C fuel done data' s)
    unfolding send_all
    send_all-Sends zero done before data' s h enough at =
        let ended : ltb done (length data') ≡ false = ground (arith, enough) in
        rw ended (all_sent done before data' s ended at)
    send_all-Sends (suc fuel) done before data' s h enough at =
        elim (Bool-cases (ltb done (length data'))) [
          | inl m ↦
              rw (send_all, m)
                (sent_more fuel done before data' s
                  (λ done' t. send_all-Sends fuel done' before data' t) (ground (arith, m)) enough
                  at (C.send (drop done data') s).0 (C.send (drop done data') s).1 refl)
          | inr m ↦ rw (send_all, m) (all_sent done before data' s m at)
        ]

    response_fits : (ltb 0 (length response) ≡ true) × (ltb (length response) response_size ≡ true)
    unfolding response
    response_fits = (refl, refl)

    -- How the client stands when the server is done with it.
    abbrev pub Answers : C.State → Option (Unit {0}) × C.State → Type 0
    Answers s (r, t) =
        (r ≡ some tt)
        × (((D.is_broken t ≡ false) × (D.wire t ≡ D.wire s ++ response))
            ⊎ ((D.is_broken t ≡ true)
                × ((k : ℕ) × (k < length response) × (D.wire t ≡ D.wire s ++ take k response))))

    Sends-Answers :
        (s : C.State) (r : Option Bool) (t : C.State)
        → Sends (D.wire s) response (r, t)
        → Answers s ((elim r [ none ↦ none | some b ↦ some tt ]), t)
    Sends-Answers s r t (inl (e, whole, w)) = rw e (refl, inl (whole, w))
    Sends-Answers s r t (inr (e, broken, w)) = rw e (refl, inr (broken, w))

    -- A request has come on a connection on which no `send` has failed yet, and there is fuel for the bytes of the
    -- response and the signals that come meanwhile. However few bytes each `send` takes and whatever signals interrupt
    -- it, the server gets done with the client. Then no `send` has failed and the client has the whole response, once; or
    -- one has, and the client has a part of it from its start.
    pub handle_client-Answers :
        (fuel : ℕ) (s : C.State) (request : List ℕ)
        → (C.recv request_size s).0 ≡ some request
        → D.is_broken s ≡ false
        → length response + D.interrupts_left s ≤ fuel
        → Answers s (handle_client C fuel s)
    unfolding handle_client
    handle_client-Answers fuel s request came whole enough =
        let (kept, left, same) = D.receives request_size s in
        let t = (C.recv request_size s).1 in
        let result = send_all C fuel 0 response t in
        let sends =
          send_all-Sends fuel 0 (D.wire s) response t (omega arith) (omega (arith, enough, left))
            (kept ∙ sym (append-nil (D.wire s)), same ∙ whole) in
        rw (came, response_fits.0, response_fits.1) (Sends-Answers s result.0 result.1 sends)
