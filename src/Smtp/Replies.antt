-- ===== src/Smtp/Replies.antt =====
-- What a client receives of a reply: `setOut`, `crlf` and `HandleWrite` of internal/smtp/conn.go.
use mathlib.Core.List.{append_assoc, append-nil}
use mathlib.Core.Path.{subst}
use greyd_v.Base.{
  ℕ, ◌+◌, ◌*◌, ◌^◌, ◌≤◌, ◌==◌, ◌≡◌, ◌∙◌, ap, sym, refl, arith, Bytes, if_rule, Bool, true, false,
  not, ◌&&◌, ltb, List, [], ◌∷◌, ◌++◌, ◌⊎◌, inl, inr, length, length-append, take, drop,
}
use greyd_v.Sync.Wire.Header.{take-length, drop_front}
use greyd_v.Smtp.Text.{crlf, crlf_from}
use greyd_v.Smtp.{Config, Conn, close_conn, set_out}
use greyd_v.Smtp.Proxy.{Env}
use greyd_v.Smtp.Io.{
  Sink, write, write_from, calmed, write_pending, after_cr, after_write, within_max,
}

-- Every LF follows a CR; the flag is whether the byte before is one.
unfoldable pub Follows : Bool → Bytes → Type 0
Follows after [] = Unit {0}
Follows after (c ∷ cs) = (c ≡ 10 → after ≡ true) × Follows (c == 13) cs

crlf_from-Follows : (after : Bool) (s : Bytes) → Follows after (crlf_from after s)
unfolding crlf_from Follows
crlf_from-Follows after [] = tt
crlf_from-Follows after (c ∷ cs) =
    let rest = crlf_from-Follows (c == 13) cs in
    if_rule (Follows after) (c == 10 && not after)
      (λ bare. (λ e. absurd (omega arith), (λ e. refl, rest))) λ full. (λ e. ground arith, rest)

unfoldable pub ends_cr : Bytes → Bool
ends_cr [] = false
ends_cr (c ∷ []) = c == 13
ends_cr (c ∷ d ∷ cs) = ends_cr (d ∷ cs)

ends_cr-append : (s : Bytes) (b : ℕ) → ends_cr (s ++ (b ∷ [])) ≡ (b == 13)
unfolding ends_cr
ends_cr-append [] b = refl
ends_cr-append (c ∷ []) b = refl
ends_cr-append (c ∷ d ∷ cs) b = ends_cr-append (d ∷ cs) b

-- A reply on its way: what was sent of it, and what is still to be sent.
pub data Sending (base text : Bytes) : Conn → Sink → Type 0 where
  sending :
      (c : Conn) (s : Sink) (sent pending : Bytes)
      → c.out ≡ text
      → text ≡ sent ++ pending
      → c.out_pos ≡ length sent
      → s.sent ≡ base ++ sent
      → ((c.seen_cr ≡ ends_cr sent) ⊎ (pending ≡ []))
      → Follows (ends_cr sent) pending
      → Sending base text c s

all_sent :
    (base text : Bytes) (c : Conn) (s : Sink)
    → Sending base text c s
    → length c.out ≤ c.out_pos
    → s.sent ≡ base ++ text
all_sent base text _ _ (sending c s sent [] same whole at was seen follows) full =
    was ∙ ap (λ x. base ++ x) (sym (append-nil sent) ∙ sym whole)
all_sent base text _ _ (sending c s sent (b ∷ bs) same whole at was seen follows) full =
    absurd (omega (arith, length-append sent (b ∷ bs), ap length same, ap length whole))

module _ (cfg : Config) where
  -- Rounds of `HandleWrite` before the transition at its end, each with the counters and the time as
  -- they are then, that leave the connection open.
  pub data Writes : Conn → Sink → Conn → Sink → Type 0 where
    rest : (c : Conn) (s : Sink) → Writes c s c s
    more :
        (env : Env) (c d e : Conn) (s t u : Sink)
        → write_pending cfg env (drop c.out_pos c.out) (calmed cfg env c) s ≡ (d, t)
        → d.closed ≡ false
        → Writes d t e u
        → Writes c s e u

  module _ (env : Env) (base text : Bytes) where
    Kept : Conn × Sink → Type 0
    Kept r = (r.0.closed ≡ true) ⊎ Sending base text r.0 r.1

    close_conn-Kept : (c : Conn) (s : Sink) → Kept (close_conn c, s)
    unfolding close_conn Kept
    close_conn-Kept c s =
        inl (if_rule (λ (x : Conn). x.closed ≡ true) c.closed (λ done. done) λ alive. refl)

    after_write-Kept :
        (n : ℕ) (c : Conn) (chunk : Bytes) (s : Sink) (outcomes : List Bool)
        → ((later : List Bool)
            → Sending base text
                (record c { out_pos = c.out_pos + n })
                (record s { sent = s.sent ++ chunk; succeeds = later }))
        → Kept (after_write cfg env n c (write_from chunk s outcomes))
    unfolding after_write write_from Kept
    after_write-Kept n c chunk s [] all = close_conn-Kept c s
    after_write-Kept n c chunk s (true ∷ later) all = inr (all later)
    after_write-Kept n c chunk s (false ∷ later) all = close_conn-Kept c _

    pending-Kept :
        (sent : Bytes) (b : ℕ) (bs : Bytes) (c : Conn) (s : Sink)
        → c.out ≡ text
        → text ≡ sent ++ (b ∷ bs)
        → c.out_pos ≡ length sent
        → s.sent ≡ base ++ sent
        → c.seen_cr ≡ ends_cr sent
        → Follows (ends_cr sent) (b ∷ bs)
        → Kept (write_pending cfg env (b ∷ bs) c s)
    unfolding write_pending Follows after_cr write
    pending-Kept sent b bs c s same whole at was seen follows =
        let d = record c { seen_cr = b == 13 } in
        let one : (later : List Bool)
            → Sending base text (record d { out_pos = c.out_pos + 1 })
                (record s { sent = s.sent ++ (b ∷ []); succeeds = later }) =
          λ later.
            sending _ _ (sent ++ (b ∷ [])) bs same (whole ∙ sym (append_assoc sent (b ∷ []) bs))
              (omega (arith, length-append sent (b ∷ [])))
              (ap (λ x. x ++ (b ∷ [])) was ∙ append_assoc base sent (b ∷ []))
              (inl (sym (ends_cr-append sent b)))
              (subst (λ x. Follows x bs) (sym (ends_cr-append sent b)) follows.1) in
        let all : (later : List Bool)
            → Sending base text (record d { out_pos = c.out_pos + length (b ∷ bs) })
                (record s { sent = s.sent ++ take (length (b ∷ bs)) (b ∷ bs); succeeds = later }) =
          λ later.
            sending _ _ (sent ++ (b ∷ bs)) [] same (whole ∙ sym (append-nil (sent ++ (b ∷ bs))))
              (omega (arith, length-append sent (b ∷ bs)))
              (ap (λ x. s.sent ++ x) (take-length (length (b ∷ bs)) (b ∷ bs) (omega arith))
                ∙ ap (λ x. x ++ (b ∷ bs)) was
                ∙ append_assoc base sent (b ∷ bs))
              (inr refl) tt in
        if_rule (λ r. Kept (after_cr cfg env b (b ∷ bs) c r)) (b == 10 && not c.seen_cr)
          (λ bare. absurd (ground (arith, follows.0, seen)))
          λ fine.
            if_rule (λ n. Kept (after_write cfg env n d (write (take n (b ∷ bs)) s)))
              (within_max env.counters && ltb 0 c.stutter)
              (λ stutters. after_write-Kept 1 d (b ∷ []) s s.succeeds one)
              λ at_once.
                after_write-Kept (length (b ∷ bs)) d (take (length (b ∷ bs)) (b ∷ bs)) s s.succeeds
                  all

    drop_sent :
        (c : Conn) (sent pending : Bytes)
        → c.out ≡ text
        → text ≡ sent ++ pending
        → c.out_pos ≡ length sent
        → drop c.out_pos c.out ≡ pending
    drop_sent c sent pending same whole at =
        ap (drop c.out_pos) (same ∙ whole) ∙ drop_front c.out_pos sent pending (sym at)

    rest-Kept :
        (sent pending : Bytes) (c : Conn) (s : Sink)
        → c.out ≡ text
        → text ≡ sent ++ pending
        → c.out_pos ≡ length sent
        → s.sent ≡ base ++ sent
        → ((c.seen_cr ≡ ends_cr sent) ⊎ (pending ≡ []))
        → Follows (ends_cr sent) pending
        → Kept (write_pending cfg env pending c s)
    unfolding write_pending Kept
    rest-Kept sent [] c s same whole at was seen follows =
        inr (sending c s sent [] same whole at was seen follows)
    rest-Kept sent (b ∷ bs) c s same whole at was (inl seen) follows =
        pending-Kept sent b bs c s same whole at was seen follows
    rest-Kept sent (b ∷ bs) c s same whole at was (inr none_left) follows = absurd (cc none_left)

    -- One round of writing.
    round-Kept :
        (c : Conn) (s : Sink)
        → Sending base text c s
        → Kept (write_pending cfg env (drop c.out_pos c.out) (calmed cfg env c) s)
    unfolding calmed
    round-Kept _ _ (sending c s sent pending same whole at was seen follows) =
        subst (λ x. Kept (write_pending cfg env x (calmed cfg env c) s))
          (sym (drop_sent c sent pending same whole at))
          (if_rule (λ x. Kept (write_pending cfg env pending x s))
            (ltb 0 c.stutter
              && (cfg.greylist && (not c.black && ltb (cfg.grey_stutter * 10 ^ 9) env.elapsed)))
            (λ calm. rest-Kept sent pending _ s same whole at was seen follows)
            λ stays. rest-Kept sent pending c s same whole at was seen follows)

    still-Sending : (r : Conn × Sink) → r.0.closed ≡ false → Kept r → Sending base text r.0 r.1
    unfolding Kept
    still-Sending r alive (inl done) = absurd (cc (alive, done))
    still-Sending r alive (inr h) = h

  Writes-Sending :
      (base text : Bytes) (c d : Conn) (s t : Sink)
      → Writes c s d t
      → Sending base text c s
      → Sending base text d t
  Writes-Sending base text c _ s _ (rest _ _) h = h
  Writes-Sending base text c e s u (more env _ d _ _ t _ step alive later) h =
      Writes-Sending base text d e t u later (
        still-Sending env base text (d, t) alive
          (subst (Kept env base text) step (round-Kept env base text c s h)))

  -- A queued reply, written in rounds of any sizes, at once or byte by byte, while the stuttering and
  -- the number of clients change, is sent as it was queued: with every line ended by CR LF, and no
  -- byte lost, doubled or added.
  pub reply-sent :
      (text : Bytes) (c d : Conn) (s t : Sink)
      → Writes (set_out text c) s d t
      → length d.out ≤ d.out_pos
      → t.sent ≡ s.sent ++ crlf text
  unfolding crlf ends_cr
  reply-sent text c d s t writes done =
      all_sent s.sent (crlf text) d t
        (Writes-Sending s.sent (crlf text) (set_out text c) d s t writes (
          sending (set_out text c) s [] (crlf text) refl refl refl (sym (append-nil s.sent))
            (inl refl) (crlf_from-Follows false text)))
        done
