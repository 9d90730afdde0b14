-- ===== src/Store/Hosts/Placing/Loop.antt =====
-- The loop of `choose_host` over the hosts (crates/store/src/runners.rs).
use mathlib.Core.List.{Memᴰ}
use mathlib.Core.List.Memᴰ
use bento.Shared.{
  ◌^◌, ◌<◌, ◌≡◌, ◌≢◌, refl, sym, subst, arith, String, List, [], ◌∷◌, ◌++◌, Option, none, some,
  string_eq, inl, inr, ◌⊎◌, Bool-cases,
}
use bento.Shared.Int.{int_eq}
use bento.Types.{Host, Placing}
use bento.Store.Database.{Result-cases, Error, sqlite, ok, err, >>=-eq-ok, Rejection}
use bento.Store.Instances.{to_sql_int}
use bento.Store.Hosts.{Fleet}
use bento.Store.Hosts.Placing.{
  Float, Weight, Verdict, eligible, rejected, reserved, weigh_host, Candidate, below, better,
  weigh_all,
}
use bento.Store.Hosts.Placing.Order.{IsOrder, Beats, better-Beats, Beats-better}

module _ {F : Type 0} (float : Float F) (fleet : Fleet) (want : Placing) (ratio : F) where
  -- The host can take the instance, with the weight.
  abbrev pub Fits : Weight F → Host → Type 0
  Fits weight h = weigh_host float fleet h want ratio ≡ ok (eligible weight)

  -- What holds of the best so far and of every candidate holds of the best at the end.
  better-keeps :
      (P : Candidate float → Type 0) (c : Candidate float) (best : Option (Candidate float))
      → P c
      → ((b : Candidate float) → best ≡ some b → P b)
      → (b : Candidate float) → better float c best ≡ some b
      → P b
  unfolding better
  better-keeps P c none here before b e = subst P (ground (arith, e)) here
  better-keeps P c (some old) here before b e = elim (Bool-cases (below float c old)) [
    | inl lower ↦ let same : c ≡ b = ground (arith, lower, e) in subst P same here
    | inr upper ↦ before b (ground (arith, upper, e))
  ]

  -- The first turn of the loop.
  weigh_all-step :
      (h : Host) (hosts : List Host) (best : Option (Candidate float))
      (reasons : List (String × Rejection))
      {r : Option (Candidate float) × List (String × Rejection)}
      → weigh_all float fleet want ratio (h ∷ hosts) best reasons ≡ ok r
      → ((w : Weight F) × Fits w h
          × (weigh_all float fleet want ratio hosts (better float (w, h) best) reasons ≡ ok r))
        ⊎ ((reason : Rejection) × (weigh_host float fleet h want ratio ≡ ok (rejected reason))
            × (weigh_all float fleet want ratio hosts best (reasons ++ (h.name, reason) ∷ [])
                ≡ ok r))
  unfolding weigh_all
  weigh_all-step h hosts best reasons {r} e =
      let (verdict, weighed, rest) = >>=-eq-ok (weigh_host float fleet h want ratio) _ e in
      by_verdict verdict weighed rest
    where
      by_verdict :
          (verdict : Verdict F)
          → weigh_host float fleet h want ratio ≡ ok verdict
          → (elim verdict [
            | eligible weight ↦
                weigh_all float fleet want ratio hosts (better float (weight, h) best) reasons
            | rejected reason ↦
                weigh_all float fleet want ratio hosts best (reasons ++ (h.name, reason) ∷ [])
          ])
            ≡ ok r
          → ((w : Weight F) × Fits w h
              × (weigh_all float fleet want ratio hosts (better float (w, h) best) reasons ≡ ok r))
            ⊎ ((reason : Rejection) × (weigh_host float fleet h want ratio ≡ ok (rejected reason))
                × (weigh_all float fleet want ratio hosts best (reasons ++ (h.name, reason) ∷ [])
                    ≡ ok r))
      by_verdict (eligible w) weighed rest = inl (w, weighed, rest)
      by_verdict (rejected reason) weighed rest = inr (reason, weighed, rest)

  weigh_host-err : (h : Host) {x : Error} → weigh_host float fleet h want ratio ≡ err x → x ≡ sqlite
  unfolding weigh_host to_sql_int
  weigh_host-err h {x} e = ground (arith, e)

  pub weigh_all-err :
      (hosts : List Host) (best : Option (Candidate float)) (reasons : List (String × Rejection))
      {x : Error}
      → weigh_all float fleet want ratio hosts best reasons ≡ err x
      → x ≡ sqlite
  unfolding weigh_all
  weigh_all-err [] best reasons e = absurd (ground (arith, e))
  weigh_all-err (h ∷ hosts) best reasons {x} e =
      elim (Result-cases (weigh_host float fleet h want ratio)) [
        | inl (y, failed) ↦
            let same : y ≡ x = ground (arith, failed, e) in
            subst (λ z. z ≡ sqlite) same (weigh_host-err h failed)
        | inr (eligible w, weighed) ↦
            weigh_all-err hosts (better float (w, h) best) reasons (rw (weighed, weigh_all) at e)
        | inr (rejected reason, weighed) ↦
            weigh_all-err hosts best (reasons ++ (h.name, reason) ∷ [])
              (rw (weighed, weigh_all) at e)
      ]

  better-some : (c : Candidate float) (best : Option (Candidate float)) → better float c best ≢ none
  unfolding better
  better-some c none e = cc
  better-some c (some b) e = ground (arith, e)

  pub weigh_all-keeps :
      (P : Candidate float → Type 0) (hosts : List Host) (best best' : Option (Candidate float))
      (reasons reasons' : List (String × Rejection))
      → weigh_all float fleet want ratio hosts best reasons ≡ ok (best', reasons')
      → ((h : Host) (w : Weight F) → Memᴰ h hosts → Fits w h → P (w, h))
      → ((b : Candidate float) → best ≡ some b → P b)
      → (b : Candidate float) → best' ≡ some b
      → P b
  unfolding weigh_all
  weigh_all-keeps P [] best best' reasons reasons' e each before b it =
      before b (ground (arith, e, it))
  weigh_all-keeps P (h ∷ hosts) best best' reasons reasons' e each before b it =
      let later : (g : Host) (w : Weight F) → Memᴰ g hosts → Fits w g → P (w, g) =
        λ g w in_rest. each g w (Memᴰ.tail in_rest) in
      elim (weigh_all-step h hosts best reasons e) [
        | inl (w, fits, rest) ↦
            weigh_all-keeps P hosts (better float (w, h) best) best' reasons reasons' rest later
              (better-keeps P (w, h) best (each h w (Memᴰ.head refl) fits) before) b it
        | inr (reason, _, rest) ↦
            weigh_all-keeps P hosts best best' (reasons ++ (h.name, reason) ∷ []) reasons' rest
              later before b it
      ]

  -- Every candidate is weighed against the best: none is below the answer.
  pub weigh_all-Beats :
      IsOrder float
      → (hosts : List Host) (best best' : Option (Candidate float))
        (reasons reasons' : List (String × Rejection))
      → weigh_all float fleet want ratio hosts best reasons ≡ ok (best', reasons')
      → ((c : Candidate float) → Beats float best c → Beats float best' c)
        × ((h : Host) (w : Weight F) → Memᴰ h hosts → Fits w h → Beats float best' (w, h))
  unfolding weigh_all
  weigh_all-Beats order [] best best' reasons reasons' e =
      let same : best ≡ best' = ground (arith, e) in
      (
        λ c beats. subst (λ b. Beats float b c) same beats,
        λ h w in_none fits. absurd (Memᴰ.not-nil in_none),
      )
  weigh_all-Beats order (h ∷ hosts) best best' reasons reasons' e =
      elim (weigh_all-step h hosts best reasons e) [
        | inl (w, here, rest) ↦
            let (keeps, later) =
              weigh_all-Beats order hosts (better float (w, h) best) best' reasons reasons' rest in
            (
              λ c beats. keeps c (Beats-better float order c (w, h) best beats),
              λ g v listed fits. elim (Memᴰ.cases_cons listed) [
                | inl same ↦
                    let there : Fits v h = subst (λ x. Fits v x) same fits in
                    let one : w ≡ v = ground (arith, here, there) in
                    subst (λ x. Beats float best' (v, x)) (sym same)
                      (subst (λ x. Beats float best' (x, h)) one
                        (keeps (w, h) (better-Beats float order (w, h) best)))
                | inr in_rest ↦ later g v in_rest fits
              ],
            )
        | inr (reason, out, rest) ↦
            let (keeps, later) =
              weigh_all-Beats order hosts best best' (reasons ++ (h.name, reason) ∷ []) reasons'
                rest in
            (
              keeps,
              λ g v listed fits. elim (Memᴰ.cases_cons listed) [
                | inl same ↦ absurd (ground (arith, out, subst (λ x. Fits v x) same fits))
                | inr in_rest ↦ later g v in_rest fits
              ],
            )
      ]

  -- The reasons of a refusal name every host.
  pub weigh_all-rejects :
      (hosts : List Host) (best : Option (Candidate float))
      (reasons reasons' : List (String × Rejection))
      → weigh_all float fleet want ratio hosts best reasons ≡ ok (none, reasons')
      → (best ≡ none)
        × ((n : String × Rejection) → Memᴰ n reasons → Memᴰ n reasons')
        × ((h : Host)
            → Memᴰ h hosts
            → (reason : Rejection) × (weigh_host float fleet h want ratio ≡ ok (rejected reason))
              × Memᴰ (h.name, reason) reasons')
  unfolding weigh_all better
  weigh_all-rejects [] best reasons reasons' e =
      let same : reasons ≡ reasons' = ground (arith, e) in
      (
        ground (arith, e),
        λ n there. subst (Memᴰ n) same there,
        λ h in_none. absurd (Memᴰ.not-nil in_none),
      )
  weigh_all-rejects (h ∷ hosts) best reasons reasons' e =
      elim (weigh_all-step h hosts best reasons e) [
        | inl (w, here, rest) ↦
            let (nobody, _, _) =
              weigh_all-rejects hosts (better float (w, h) best) reasons reasons' rest in
            absurd (better-some (w, h) best nobody)
        | inr (reason, out, rest) ↦
            let (nobody, kept, later) =
              weigh_all-rejects hosts best (reasons ++ (h.name, reason) ∷ []) reasons' rest in
            (
              nobody,
              λ n there. kept n (Memᴰ.append_left ((h.name, reason) ∷ []) there),
              λ g listed. elim (Memᴰ.cases_cons listed) [
                | inl same ↦
                    let last = kept (h.name, reason) (Memᴰ.append_right reasons (Memᴰ.head refl)) in
                    (
                      reason,
                      subst (λ x. weigh_host float fleet x want ratio ≡ ok (rejected reason))
                          (sym same) out,
                      subst (λ x. Memᴰ (x.name, reason) reasons') (sym same) last,
                    )
                | inr in_rest ↦ later g in_rest
              ],
            )
      ]

  -- What the host's instances hold together is an integer that SQLite can sum.
  abbrev pub Summable : Host → Type 0
  Summable h =
      (reserved (λ i. i.memory_mib) h.id fleet.instances < 2 ^ 63)
      × (reserved (λ i. i.vcpu) h.id fleet.instances < 2 ^ 63)

  weigh_host-total :
      (h : Host)
      → Summable h
      → ((w : Weight F) × Fits w h)
        ⊎ ((reason : Rejection) × (weigh_host float fleet h want ratio ≡ ok (rejected reason)))
  unfolding weigh_host to_sql_int
  weigh_host-total h sums = elim (Result-cases (weigh_host float fleet h want ratio)) [
    | inl (x, failed) ↦ absurd (ground (arith, failed, sums))
    | inr (eligible w, weighed) ↦ inl (w, weighed)
    | inr (rejected reason, weighed) ↦ inr (reason, weighed)
  ]

  pub weigh_all-total :
      (hosts : List Host) (best : Option (Candidate float)) (reasons : List (String × Rejection))
      → ((h : Host) → Memᴰ h hosts → Summable h)
      → (r : Option (Candidate float) × List (String × Rejection)) × (weigh_all float fleet want
            ratio hosts best reasons
          ≡ ok r)
  unfolding weigh_all
  weigh_all-total [] best reasons sums = ((best, reasons), refl)
  weigh_all-total (h ∷ hosts) best reasons sums =
      let later : (g : Host) → Memᴰ g hosts → Summable g =
        λ g in_rest. sums g (Memᴰ.tail in_rest) in
      elim (weigh_host-total h (sums h (Memᴰ.head refl))) [
        | inl (w, weighed) ↦
            let (r, run) = weigh_all-total hosts (better float (w, h) best) reasons later in
            (r, rw weighed run)
        | inr (reason, weighed) ↦
            let (r, run) = weigh_all-total hosts best (reasons ++ (h.name, reason) ∷ []) later in
            (r, rw weighed run)
      ]
