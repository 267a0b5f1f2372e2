-- ===== src/Net/Client/Reports.antt =====
-- Client.cpp and BaseClient.cpp: what a line from the pool has the listener told of results.
use rxs_supported.Common.{
  ltb, ◌||◌, ℕ, suc, ◌+◌, ◌≤◌, List, [], ◌∷◌, ◌++◌, Bool, false, not, ◌==◌, if◌then◌else◌, Option,
  All, ◌≡◌, refl, arith, Bool-cases, Option-cases, inl, inr, if_elim, option_elim, length,
}
use rxs_supported.Common.Maps.{lookup, count, count-erase}
use rxs_supported.Net.Client.{
  Client, Effect, resolving, opening, uv_closing, reading, freed, sent, told_close, told_login,
  told_job, told_result, asked_verify, answered, deleted, faulted, SubmitResult, Act, ◌then◌, World,
  close, close_socket, set_state, reconnect, count_failure,
}
use rxs_supported.Net.Client.Responses.{handle_submit_response}
use rxs_supported.Net.Client.Moves.{Moves, Plain, still, cleared, shut, told, edit, both}
use rxs_supported.Tools.Json.{Json, Integer, exactly, below}
use rxs_supported.Net.Client.Calls.{
  dispatch, parse, parse_all, has_method, reconnect_url, set_pool_url,
}
use rxs_supported.Net.Client.Key
use rxs_supported.Net.Client.Moves.{dispatch-Moves}
use rxs_supported.Net.Url.{first}
use rxs_supported.Tools.Json.{get_value, is_object}

module _ (seq : ℕ) where
  abbrev pub is_seq : SubmitResult → Bool
  is_seq r = r.seq == seq

  -- How many results are kept that were submitted under this number.
  abbrev pub unanswered : Client → ℕ
  unanswered c = count is_seq c.results

  abbrev pub reports_one : Effect → Bool
  reports_one (told_result r error) = r.seq == seq
  reports_one _ = false

  -- How often the listener is told of a result of this number.
  abbrev pub reports : List Effect → ℕ
  reports [] = 0
  reports (e ∷ es) = if reports_one e then suc (reports es) else reports es

  pub reports-append : (es fs : List Effect) → reports (es ++ fs) ≡ reports es + reports fs
  reports-append [] fs = omega arith
  reports-append (e ∷ es) fs = ground (arith, reports-append es fs)

  -- Nothing is reported that was not kept.
  abbrev pub Fair : Client → Act → Type 0
  Fair c p = reports p.1 + unanswered p.0 ≤ unanswered c

  reports_one-Plain : (e : Effect) → Plain e → reports_one e ≡ false
  reports_one-Plain (told_result r error) h = absurd h
  reports_one-Plain (resolving host) h = refl
  reports_one-Plain (opening handle port) h = refl
  reports_one-Plain (uv_closing handle) h = refl
  reports_one-Plain (reading handle) h = refl
  reports_one-Plain (freed handle) h = refl
  reports_one-Plain (sent bytes) h = refl
  reports_one-Plain (told_close failures) h = refl
  reports_one-Plain told_login h = refl
  reports_one-Plain (told_job j) h = refl
  reports_one-Plain (asked_verify a) h = refl
  reports_one-Plain (answered c s e) h = refl
  reports_one-Plain deleted h = refl
  reports_one-Plain faulted h = refl

  Plain-reports : (es : List Effect) → All Plain es → reports es ≡ 0
  Plain-reports [] h = refl
  Plain-reports (e ∷ es) (p, h) = ground (arith, reports_one-Plain e p, Plain-reports es h)

  pub close-Fair : (c : Client) → Fair c (close c)
  unfolding close close_socket
  close-Fair c = ground arith

  told-Fair :
      (w : World) (id : Integer) (error : Option (List ℕ)) (c : Client)
      → Fair c (handle_submit_response w id error c)
  unfolding handle_submit_response
  told-Fair w (below n) error c = omega arith
  told-Fair w (exactly n) error c = elim (Option-cases (lookup n c.results)) [
    | inl e ↦ rw (handle_submit_response, e) (omega arith)
    | inr (r, e) ↦
        rw (handle_submit_response, e) (ground (arith, count-erase is_seq n r c.results e))
  ]

  pub then-Fair :
      (c : Client) (p : Act) (k : Client → Act)
      → Fair c p
      → Fair (p.0) (k (p.0))
      → Fair c (p then k)
  unfolding ◌then◌
  then-Fair c p k h m = omega (arith, reports-append p.1 (k (p.0)).1)

  pub Moves-Fair : (w : World) (c : Client) (p : Act) → Moves w c p → Fair c p
  unfolding count
  Moves-Fair w _ _ (still c c' es a q) = rw (a.3) (omega (arith, Plain-reports es q))
  Moves-Fair w _ _ (cleared c) = omega arith
  Moves-Fair w _ _ (shut c) = close-Fair c
  Moves-Fair w _ _ (told id error c) = told-Fair w id error c
  Moves-Fair w _ _ (edit c q c' m a) = rw (a.3) (Moves-Fair w c q m)
  Moves-Fair w _ _ (both c q k m n) =
      then-Fair c q k (Moves-Fair w c q m) (Moves-Fair w (q.0) (k (q.0)) n)

  pub reconnect-Fair : (now : ℕ) (c : Client) → Fair c (reconnect now c)
  unfolding reconnect count_failure set_state
  reconnect-Fair now c = ground arith

  reconnected : (now : ℕ) (url : List ℕ) (c : Client) → Fair c (reconnect now (set_pool_url url c))
  unfolding reconnect count_failure set_state set_pool_url
  reconnected now url c = ground arith

  dispatch-Fair : (w : World) (doc : Json) (c : Client) → Fair c (dispatch w doc c)
  unfolding dispatch
  dispatch-Fair w doc c = elim (Bool-cases (has_method w doc Key.client_reconnect)) [
    | inr n ↦ Moves-Fair w c (dispatch w doc c) (dispatch-Moves w doc c n)
    | inl y ↦
        rw (dispatch, y)
          (option_elim (Fair c) (reconnect_url (get_value doc Key.params)) (omega arith)
            (λ url. reconnected w.now url c))
  ]

  parse-Fair : (w : World) (line : List ℕ) (c : Client) → Fair c (parse w line c)
  unfolding parse
  parse-Fair w line c =
      if_elim (Fair c) (ltb (length line) 22 || not (first line == b'{')) (omega arith) (
        option_elim (Fair c) (w.parse_json line) (omega arith)
          (λ doc. if_elim (Fair c) (is_object doc) (dispatch-Fair w doc c) (omega arith)))

  pub parse_all-Fair :
      (w : World) (lines : List (List ℕ)) (c : Client) → Fair c (parse_all w lines c)
  unfolding parse_all
  parse_all-Fair w [] c = omega arith
  parse_all-Fair w (line ∷ lines) c =
      if_elim (Fair c) (c.alive)
        (then-Fair c (parse w line c) (parse_all w lines) (parse-Fair w line c)
          (parse_all-Fair w lines (parse w line c).0))
        (omega arith)
