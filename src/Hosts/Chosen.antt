-- ===== src/Hosts/Chosen.antt =====
-- What the placement of a new replica respects.
use ruscker.Prelude.{
  ℕ, ◌≡◌, refl, subst, inl, inr, Bool, true, false, ◌&&◌, not, some, List, [], ◌∷◌, Memᴰ, arith,
  ltb, Bool-cases, Option-cases, eq_of_some, length, keep_if, any, string_key, nat_key, pair_key,
  keep_if-Mem,
}
use ruscker.Spec.{Placement, spread, bin_pack}
use ruscker.Hosts.{
  HostLoad, has_room, number, best_of, less_loaded, fuller, pick_host, eligible, free_hosts,
  candidates, choose_host,
}

best_of-Mem :
    (better : ℕ × HostLoad → ℕ × HostLoad → Bool) (best : ℕ × HostLoad) (cs : List (ℕ × HostLoad))
    → Memᴰ (best_of better best cs) (best ∷ cs)
best_of-Mem better best [] = Memᴰ.head refl
best_of-Mem better best (c ∷ cs) = elim (Bool-cases (better c best)) [
  | inl e ↦ rw (e, best_of) (Memᴰ.tail (best_of-Mem better c cs))
  | inr e ↦ rw (e, best_of) (skip (best_of-Mem better best cs))
]
  where
    skip : Memᴰ (best_of better best cs) (best ∷ cs) → Memᴰ (best_of better best cs) (best ∷ c ∷ cs)
    skip (Memᴰ.head h) = Memᴰ.head h
    skip (Memᴰ.tail m) = Memᴰ.tail (Memᴰ.tail m)

pick_host-Mem :
    (placement : Placement) (cs : List (ℕ × HostLoad)) (c : ℕ × HostLoad)
    → pick_host placement cs ≡ some c
    → Memᴰ c cs
pick_host-Mem placement [] c h = absurd (ground arith)
pick_host-Mem spread (d ∷ cs) c h =
    subst (λ (x : ℕ × HostLoad). Memᴰ x (d ∷ cs)) (eq_of_some _ c h) (best_of-Mem less_loaded d cs)
pick_host-Mem bin_pack (d ∷ cs) c h =
    subst (λ (x : ℕ × HostLoad). Memᴰ x (d ∷ cs)) (eq_of_some _ c h) (best_of-Mem fuller d cs)

no_free :
    (cs : List (ℕ × HostLoad))
    → ltb 0 (length (keep_if (λ c. not c.1.runs_spec) cs)) ≡ false
    → any (λ c. not c.1.runs_spec) cs ≡ false
no_free [] h = refl
no_free (c ∷ cs) h = ground (arith, no_free cs)

-- The host chosen for a new replica is one of the given hosts and has room for it. Under
-- anti-affinity it runs the spec already only if every host with room does.
pub choose_host-lem :
    (loads : List HostLoad) (placement : Placement) (anti_affinity : Bool) (i : ℕ)
    → choose_host loads placement anti_affinity ≡ some i
    → (h : HostLoad) × Memᴰ (i, h) (number 0 loads)
      × (has_room h ≡ true)
      × ((anti_affinity && h.runs_spec && any (λ c. not c.1.runs_spec) (eligible loads)) ≡ false)
unfolding choose_host
choose_host-lem loads placement anti_affinity i e =
    elim (Option-cases (pick_host placement (candidates loads anti_affinity))) [
      | inl n ↦ absurd (ground arith)
      | inr (c, p) ↦
          let same : c.0 ≡ i = ground arith in
          let m = pick_host-Mem placement (candidates loads anti_affinity) c p in
          elim (Bool-cases (anti_affinity && ltb 0 (length (free_hosts loads)))) [
            | inl f ↦
                let (k, t) =
                  keep_if-Mem (λ (c : ℕ × HostLoad). not c.1.runs_spec) c (eligible loads)
                    (rw (f, candidates) at m) in
                let (n, room) =
                  keep_if-Mem (λ (c : ℕ × HostLoad). has_room c.1) c (number 0 loads) k in
                (c.1, rw (← same) n, room, ground arith)
            | inr f ↦
                let (n, room) =
                  keep_if-Mem (λ (c : ℕ × HostLoad). has_room c.1) c (number 0 loads)
                    (rw (f, candidates) at m) in
                (c.1, rw (← same) n, room, ground (arith, no_free (eligible loads)))
          ]
    ]
