-- ===== src/Client/Queue.antt =====
-- Responses go to the requests in the order of the queue.
use mnapp.Client.Request.{Request}
use mnapp.Client.Workers.{
  Worked, goes_on, ends, crashes, no_fuel, Peer, absent, crashed, present, Receiver, Line, update,
  parse_response, recv_end, recv_present, recv_ready, recv_round,
}
use mnapp.Http.Ctx.{
  Res, done, need_more, eof, empty, consume_data_error, process_body_error,
  http_parse_message_error, Stream,
}
use mnapp.Http.Message.{Next, State, continue_, return_, undefined}
use mnapp.Shared.Int.{pos, eqb_ℤ}
use mathlib.Core.Path.{subst}
use mnapp.Shared.{ℕ, ◌≡◌, refl, sym, ◌⊎◌, inl, inr, List, ◌∷◌, ◌==◌, if_elim, Bool-cases, ==_iff}

module _ {B H T F D W : Type 0} (r : Receiver B H Stream F D W) (l : Line B H T F D W) (id : ℕ)
    (rest : List ℕ) where
  -- What the worker leaves: all but the requests at the head of the queue stay, and the queue is
  -- what it was, or `rest` with the head's request answered.
  abbrev pub Answered : Line B H T F D W → Type 0
  Answered l' =
      ((j : ℕ) → (j ≡ id) ⊎ (l'.requests j ≡ l.requests j))
      × ((l'.conn.requests ≡ l.conn.requests) ⊎ (l'.conn.requests ≡ rest))

  abbrev pub AnsweredBy : Worked (Line B H T F D W) → Type 0
  AnsweredBy (goes_on l') = Answered l' × (l'.conn.requests ≡ rest)
  AnsweredBy (ends l') = Answered l'
  AnsweredBy crashes = Unit
  AnsweredBy no_fuel = Unit

  update-other :
      (a : Request B H Stream F D) (j : ℕ) → (j ≡ id) ⊎ (update l.requests id a j ≡ l.requests j)
  update-other a j = elim (Bool-cases (j == id)) [
    | inl e ↦ inl ((==_iff j id).0 e)
    | inr e ↦ rw (e) (inr refl)
  ]

  recv_end-AnsweredBy :
      (res : Res) (l' : Line B H T F D W)
      → ((j : ℕ) → (j ≡ id) ⊎ (l'.requests j ≡ l.requests j))
      → l'.conn.requests ≡ rest
      → AnsweredBy (recv_end r res l')
  unfolding recv_end
  recv_end-AnsweredBy done l' others queue = ((others, inr queue), queue)
  recv_end-AnsweredBy need_more l' others queue = (others, inr queue)
  recv_end-AnsweredBy eof l' others queue = (others, inr queue)
  recv_end-AnsweredBy empty l' others queue = (others, inr queue)
  recv_end-AnsweredBy consume_data_error l' others queue = (others, inr queue)
  recv_end-AnsweredBy (process_body_error n) l' others queue = (others, inr queue)
  recv_end-AnsweredBy (http_parse_message_error n) l' others queue = (others, inr queue)

  -- By the user data of the parser's last state.
  recv_returned-AnsweredBy :
      (ready : Line B H T F D W) (res : Res) (m : State (Peer (Request B H Stream F D)) W)
      (peer : Peer (Request B H Stream F D))
      → m.udata ≡ peer
      → ready.requests ≡ l.requests
      → ready.conn.requests ≡ rest
      → AnsweredBy (recv_present r id ready (return_ res m))
  unfolding recv_present
  recv_returned-AnsweredBy ready res m (present req) e same queue =
      rw (e, recv_present) (recv_end-AnsweredBy res _ (rw (same) (update-other _)) queue)
  recv_returned-AnsweredBy ready res m absent e same queue = rw (e, recv_present) tt
  recv_returned-AnsweredBy ready res m crashed e same queue = rw (e, recv_present) tt

  recv_present-AnsweredBy :
      (ready : Line B H T F D W) (n : Next (Peer (Request B H Stream F D)) W)
      → ready.requests ≡ l.requests
      → ready.conn.requests ≡ rest
      → AnsweredBy (recv_present r id ready n)
  unfolding recv_present
  recv_present-AnsweredBy ready (continue_ m) same queue = tt
  recv_present-AnsweredBy ready undefined same queue = tt
  recv_present-AnsweredBy ready (return_ res m) same queue =
      recv_returned-AnsweredBy ready res m m.udata refl same queue

  recv_ready-AnsweredBy :
      (ready : Line B H T F D W)
      → ready.requests ≡ l.requests
      → AnsweredBy (recv_ready r (id ∷ rest) ready)
  unfolding recv_ready
  recv_ready-AnsweredBy ready same =
      let req = ready.requests id in
      recv_present-AnsweredBy (record ready { conn = record ready.conn { requests = rest } })
        (parse_response r req.in_body_cb req.response.ctx ready.conn.in_.stream (present req)
          ready.world)
        same refl

  -- With a request at the head of the queue, a round of the receive worker goes on with the rest of
  -- the queue; whether it goes on or ends, it changes no request but that at the head.
  pub recv_round-AnsweredBy : l.conn.requests ≡ id ∷ rest → AnsweredBy (recv_round r l)
  unfolding recv_round
  recv_round-AnsweredBy h =
      let (res, w) = r.wait_for_read l.conn.fd l.world in
      if_elim AnsweredBy (eqb_ℤ res (pos 0)) _ _
        (λ e.
          subst (λ (q : List ℕ). AnsweredBy (recv_ready r q (record l { world = w }))) (sym h)
            (recv_ready-AnsweredBy (record l { world = w }) refl))
        (λ e. ((λ j. inr refl), inl refl))
