-- ===== src/ServerListener/Selection.antt =====
-- The shortcuts of `ServerListener::run` for a single ready descriptor, against a round without them.
use vr_admin.Prelude.{
  ℕ, ◌+◌, ◌≡◌, refl, ◌⊎◌, sym, inl, inr, Bool, true, false, Bool-cases, if◌then◌else◌, ltb_ℤ, eqb_ℤ,
  eqb_ℤ_iff, Option, some, List, [], ◌∷◌, All, All-append, ℤ, pos, minus_one, Exec, ok, arith,
}
use vr_admin.XmlDatabase.{XmlDatabase}
use vr_admin.ClientConnector.{post_select_with}
use vr_admin.ServerListener.{
  ServerListener, has_connector, add_connector, Round, Log, nothing, post_select_all, serve, accept,
  run_round, del_all,
}

-- The descriptors that a round waits for.
abbrev pub watched : ServerListener → List ℤ
watched l = l.listen_fd ∷ l.wakeup_read ∷ l.connectors

abbrev count_ready : (ℤ → Bool) → List ℤ → ℕ
count_ready ready [] = 0
count_ready ready (fd ∷ fds) = (if ready fd then 1 else 0) + count_ready ready fds

-- What `select` and `accept` give, as their manual pages have it: the number of the ready
-- descriptors, of which each was in the set, and a descriptor that is not in use.
pub record IsSelected (round : Round) (l : ServerListener) : Type 0 where
  pub counted : round.nfds ≡ pos (count_ready round.ready (watched l))
  pub from_set : (fd : ℤ) → has_connector fd (watched l) ≡ false → round.ready fd ≡ false
  pub unused : has_connector round.accepted (watched l) ≡ false

-- A round that takes a connection if there is one, and then asks every connector.
unfoldable pub plain_round : Round → ServerListener → Exec (Option (ServerListener × Log))
plain_round round l = serve round (if round.ready l.listen_fd then accept round l else l)

count_ready-zero :
    (round : Round) (fds : List ℤ)
    → count_ready round.ready fds ≡ 0
    → All (λ fd. round.ready fd ≡ false) fds
count_ready-zero round [] h = tt
count_ready-zero round (fd ∷ fds) h = (ground arith, count_ready-zero round fds (ground arith))

post_select_all_idle :
    (db : XmlDatabase) (round : Round) (fds : List ℤ)
    → All (λ fd. round.ready fd ≡ false) fds
    → post_select_all db round fds ≡ ok ([], [])
unfolding post_select_all post_select_with
post_select_all_idle db round [] h = refl
post_select_all_idle db round (fd ∷ fds) (e, h) =
    rw (e, post_select_all_idle db round fds h) (ground arith)

serve_idle :
    (round : Round) (l : ServerListener)
    → All (λ fd. round.ready fd ≡ false) l.connectors
    → serve round l ≡ ok (some (l, nothing))
unfolding del_all
serve_idle round l h = rw (post_select_all_idle l.xml_data round l.connectors h) refl

-- With one descriptor ready, a descriptor that is ready is the only one.
others_idle :
    (round : Round) (l : ServerListener)
    → IsSelected round l
    → round.nfds ≡ pos 1
    → (round.ready l.listen_fd ≡ true) ⊎ (round.ready l.wakeup_read ≡ true)
    → All (λ fd. round.ready fd ≡ false) l.connectors
others_idle round l s one (inl e) =
    count_ready-zero round l.connectors (let c = s.counted in ground arith)
others_idle round l s one (inr e) =
    count_ready-zero round l.connectors (let c = s.counted in ground arith)

listen_idle :
    (round : Round) (l : ServerListener)
    → IsSelected round l
    → round.nfds ≡ pos 1
    → round.ready l.wakeup_read ≡ true
    → round.ready l.listen_fd ≡ false
listen_idle round l s one e = let c = s.counted in ground arith

-- A connection that was just taken is not ready.
accept_idle :
    (round : Round) (l : ServerListener)
    → IsSelected round l
    → All (λ fd. round.ready fd ≡ false) l.connectors
    → All (λ fd. round.ready fd ≡ false) (accept round l).connectors
accept_idle round l s h = elim (Bool-cases (ltb_ℤ (pos 0) round.accepted)) [
  | inr p ↦ rw p h
  | inl p ↦ elim (Bool-cases (has_connector round.accepted l.connectors)) [
    | inl e ↦ unfold add_connector in rw (p, e) h
    | inr e ↦
        unfold add_connector in
        rw (p, e)
          (All-append _ l.connectors (round.accepted ∷ []) h
            (s.from_set round.accepted s.unused, tt))
  ]
]

-- If `select` and `accept` do as their manual pages have it, the two shortcuts for one ready
-- descriptor skip no client: the round does what a round does that takes a connection if there is
-- one, and then asks every connector.
pub run_round-plain_round :
    (round : Round) (l : ServerListener)
    → IsSelected round l
    → run_round round l ≡ plain_round round l
unfolding run_round plain_round
run_round-plain_round round l s =
    let failed : eqb_ℤ round.nfds minus_one ≡ false = rw (s.counted) refl in
    elim (Bool-cases (eqb_ℤ round.nfds (pos 1))) [
      | inr many ↦ elim (Bool-cases (round.ready l.wakeup_read)) [
        | inl w ↦ elim (Bool-cases (round.ready l.listen_fd)) [
          | inl e ↦ rw (failed, many, w, e) refl
          | inr e ↦ rw (failed, many, w, e) refl
        ]
        | inr w ↦ elim (Bool-cases (round.ready l.listen_fd)) [
          | inl e ↦ rw (failed, many, w, e) refl
          | inr e ↦ rw (failed, many, w, e) refl
        ]
      ]
      | inl single ↦
          let one : round.nfds ≡ pos 1 = (eqb_ℤ_iff round.nfds (pos 1)).0 single in
          elim (Bool-cases (round.ready l.wakeup_read)) [
            | inl w ↦
                rw (failed, single, w, listen_idle round l s one w)
                  (sym (serve_idle round l (others_idle round l s one (inr w))))
            | inr w ↦ elim (Bool-cases (round.ready l.listen_fd)) [
              | inl e ↦
                  rw (failed, single, w, e)
                    (sym (
                      serve_idle round (accept round l)
                        (accept_idle round l s (others_idle round l s one (inl e)))))
              | inr e ↦ rw (failed, single, w, e) refl
            ]
          ]
    ]
