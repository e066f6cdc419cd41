-- ===== src/Mcp/Correlation.antt =====
-- Which call gets which response, over any interleaving of calls and of the reader in
-- crates/walastack-mcp/src/stdio.rs.
use walastack_rs.Base.{
  Result, ℕ, ◌+◌, ◌%◌, ◌<◌, String, ◌≡◌, refl, sym, ap, ◌∙◌, inl, inr, true, false, none, some,
  List, [], ◌∷◌, arith, Bool-cases, Option-cases, ◌==◌, ==_iff, nat_keys, string_keys, codes_keys,
  All, All-mono, lookup, remove, lookup-remove, All-insert, All-remove, All-lookup, ok, err,
}
use mathlib.Core.Path.{subst}
use walastack_rs.Mcp.Connection.{
  Wait, responded, u64_size, JsonRpcResponse, StdioConnection, new_connection, begin_request,
  deliver, forget_request, finish_request, elapsed, sender_dropped,
}

module _ (Value : Type 0) where
  -- A call begins, a response is read, or a call gives up, in any order.
  pub data Reach (server : String) : StdioConnection Value → Type 0 where
    opened : Reach server (new_connection Value server)
    begins : {c : StdioConnection Value} → Reach server c → Reach server (begin_request Value c).1
    reads :
        {c : StdioConnection Value} (r : JsonRpcResponse Value)
        → Reach server c
        → Reach server (deliver Value r c)
    gives_up :
        {c : StdioConnection Value} (id : ℕ)
        → Reach server c
        → Reach server (forget_request Value id c)

  -- The id of a call's request.
  abbrev pub id_of : (call : ℕ) → ℕ
  id_of call = (call + 1) % u64_size

  abbrev pub Unsent : (call : ℕ) → List (ℕ × JsonRpcResponse Value) → Type 0
  Unsent call delivered = All (λ (d : ℕ × JsonRpcResponse Value). (d.0 == call) ≡ false) delivered

  -- No call was sent two responses.
  abbrev pub Once : List (ℕ × JsonRpcResponse Value) → Type 0
  Once [] = Unit
  Once ((call, _) ∷ delivered) = Unsent call delivered × Once delivered

  abbrev pub IsWaiting : StdioConnection Value → ℕ × ℕ → Type 0
  IsWaiting c (id, call) = (id ≡ id_of call) × (call < c.calls) × Unsent call c.delivered

  abbrev pub IsMatched : (calls : ℕ) → ℕ × JsonRpcResponse Value → Type 0
  IsMatched calls (call, r) = (r.id ≡ id_of call) × (call < calls)

  abbrev pub IsCorrelated : StdioConnection Value → Type 0
  IsCorrelated c =
      (c.next_id ≡ id_of c.calls)
      × All (IsWaiting c) c.pending
      × All (IsMatched c.calls) c.delivered
      × Once c.delivered

  Unsent-new :
      (calls : ℕ) (delivered : List (ℕ × JsonRpcResponse Value))
      → All (IsMatched calls) delivered
      → Unsent calls delivered
  Unsent-new calls delivered h =
      All-mono (IsMatched calls) (λ d. (d.0 == calls) ≡ false) (λ d m. ground (arith, m.1))
        delivered h

  begin_request-IsCorrelated :
      (c : StdioConnection Value) → IsCorrelated c → IsCorrelated (begin_request Value c).1
  unfolding begin_request
  begin_request-IsCorrelated c (next, waiting, matched, once) = (
    omega (arith, next),
    All-insert _ c.next_id c.calls c.pending
        (next, omega arith, Unsent-new c.calls c.delivered matched)
        (All-mono (IsWaiting c) _ (λ e w. (w.0, omega (arith, w.1), w.2)) c.pending waiting),
    All-mono (IsMatched c.calls) (IsMatched (c.calls + 1)) (λ d m. (m.0, omega (arith, m.1)))
        c.delivered matched,
    once,
  )

  -- What is left in a map after a removal stands under other keys.
  remove_others : (k : ℕ) (m : List (ℕ × ℕ)) → All (λ (e : ℕ × ℕ). (e.0 == k) ≡ false) (remove k m)
  unfolding remove
  remove_others k [] = tt
  remove_others k ((j, v) ∷ m) = ground (arith, remove_others k m)

  All-both {ℓ κ μ} :
      {A : Type ℓ} (P : A → Type κ) (Q : A → Type μ) (xs : List A)
      → All P xs
      → All Q xs
      → All (λ x. P x × Q x) xs
  All-both P Q [] p q = tt
  All-both P Q (x ∷ xs) p q = ((p.0, q.0), All-both P Q xs p.1 q.1)

  other_call :
      (id call : ℕ) (e : ℕ × ℕ)
      → id ≡ id_of call
      → e.0 ≡ id_of e.1
      → (e.0 == id) ≡ false
      → (call == e.1) ≡ false
  other_call id call e is its apart = elim (Bool-cases (call == e.1)) [
    | inr different ↦ different
    | inl same ↦
        let equal = (==_iff call e.1).0 same in
        let clash : (e.0 == id) ≡ true = (==_iff e.0 id).1 (its ∙ ap id_of (sym equal) ∙ sym is) in
        absurd (cc (clash, apart))
  ]

  deliver-IsCorrelated :
      (r : JsonRpcResponse Value) (c : StdioConnection Value)
      → IsCorrelated c
      → IsCorrelated (deliver Value r c)
  unfolding deliver
  deliver-IsCorrelated r c (next, waiting, matched, once) =
      elim (Option-cases (lookup r.id c.pending)) [
        | inl e ↦
            let same : deliver Value r c ≡ c = ground (arith, e) in
            subst IsCorrelated (sym same) (next, waiting, matched, once)
        | inr (call, e) ↦
            let mine = All-lookup (IsWaiting c) r.id call c.pending waiting e in
            let kept : All (λ (x : ℕ × ℕ). IsWaiting c x × ((x.0 == r.id) ≡ false))
                (remove r.id c.pending) =
              All-both (IsWaiting c) _ (remove r.id c.pending)
                (All-remove (IsWaiting c) r.id c.pending waiting) (remove_others r.id c.pending) in
            let sent : deliver Value r c ≡ record c {
              pending = remove r.id c.pending;
              delivered = (call, r) ∷ c.delivered;
            } =
              ground (arith, e) in
            subst IsCorrelated (sym sent) (
              next,
              All-mono _ _ (λ x w. (w.0.0, w.0.1, (other_call r.id call x mine.0 w.0.0 w.1, w.0.2)))
                  (remove r.id c.pending) kept,
              ((mine.0, mine.1), matched),
              (mine.2, once),
            )
      ]

  forget_request-IsCorrelated :
      (id : ℕ) (c : StdioConnection Value)
      → IsCorrelated c
      → IsCorrelated (forget_request Value id c)
  unfolding forget_request
  forget_request-IsCorrelated id c (next, waiting, matched, once) =
      (next, All-remove (IsWaiting c) id c.pending waiting, matched, once)

  -- Over any interleaving of calls, responses and calls that give up, every response that a call was
  -- sent has the id of the call's request, and no call was sent two.
  pub Reach-IsCorrelated :
      {server : String} {c : StdioConnection Value} → Reach server c → IsCorrelated c
  unfolding new_connection
  Reach-IsCorrelated opened = (refl, tt, tt, tt)
  Reach-IsCorrelated (begins {c} reach) = begin_request-IsCorrelated c (Reach-IsCorrelated reach)
  Reach-IsCorrelated (reads {c} r reach) = deliver-IsCorrelated r c (Reach-IsCorrelated reach)
  Reach-IsCorrelated (gives_up {c} id reach) =
      forget_request-IsCorrelated id c (Reach-IsCorrelated reach)

  -- Whatever has happened on the connection before, for a call whose entry is in the map: if its write
  -- failed, the call returns and the entry stays, so that the reader still sends it a response with its
  -- id that is read next. If the call waited and gave up, or has got its response, a response with its
  -- id that is read next after its return changes nothing and is sent to nobody.
  pub finish_request_leaks :
      (null : Value) (c : StdioConnection Value) (id call : ℕ) (e : String)
      (r again : JsonRpcResponse Value)
      → lookup id c.pending ≡ some call
      → r.id ≡ id
      → again.id ≡ id
      → let after = λ (w : Result (Wait Value) String) (c : StdioConnection Value).
        (finish_request Value null id w c).1 in
        let answered = deliver Value r c in
        ((deliver Value r (after (err e) c)).delivered ≡ (call, r) ∷ c.delivered)
        × (deliver Value r (after (ok elapsed) c) ≡ after (ok elapsed) c)
        × (deliver Value r (after (ok sender_dropped) c) ≡ after (ok sender_dropped) c)
        × ((answered.delivered ≡ (call, r) ∷ c.delivered)
            × (deliver Value again (after (ok (responded r)) answered)
                ≡ after (ok (responded r)) answered))
  unfolding deliver finish_request forget_request
  finish_request_leaks null c id call e r again there same same' =
      let here : lookup r.id c.pending ≡ some call = rw same there in
      let gone : lookup r.id (remove id c.pending) ≡ none =
        ground (arith, lookup-remove id r.id c.pending, same, ==_iff id r.id) in
      let gone' : lookup again.id (remove r.id c.pending) ≡ none =
        ground (arith, lookup-remove r.id again.id c.pending, same, same', ==_iff r.id again.id) in
      (
        ground (arith, here),
        ground (arith, gone),
        ground (arith, gone),
        (ground (arith, here), ground (arith, here, gone')),
      )
