-- ===== src/Cli/Laws.antt =====
-- internal/cli/cli.go: what the subcommands do to the stored policies, and what they show.
use Prim.Native.String.{◌++◌ as append}
use traficctl.Prelude.{
  ◌≡◌, refl, sym, ◌∙◌, ap, ap₂, ◌⊎◌, inl, inr, Option, none, some, Bool, true, false, not, String,
}
use traficctl.Prelude.Int.{ℤ}
use traficctl.Prelude.Tests.{if◌then◌else◌, Bool-cases}
use traficctl.Prelude.Results.{Result, ok, fails}
use traficctl.Api.Types.{TrafficPolicy}
use traficctl.Cli.{PolicyClient, with_paused, same_bool, say_toggled, toggle_read, toggle_paused}
use traficctl.Cli.Tables.{bool_text}
use traficctl.Cli.Writes.{Output, line}

abbrev pub regenerated : ℤ → TrafficPolicy → TrafficPolicy
regenerated g p = record p { generation = g }

same_bool-true : (b c : Bool) → same_bool b c ≡ true → b ≡ c
same_bool-true true true h = refl
same_bool-true false false h = refl
same_bool-true true false h = cc
same_bool-true false true h = cc

same_bool-false : (b c : Bool) → same_bool b c ≡ false → b ≡ not c
same_bool-false true false h = refl
same_bool-false false true h = refl
same_bool-false true true h = cc
same_bool-false false false h = cc

module _ {W O : Type 0} (client : PolicyClient W) (out : Output O) where
  -- What the API server documents: an object is stored under its own key, and a merge patch that is
  -- accepted, computed against the stored object, stores the changed one with a generation of the
  -- server's.
  pub record Keeps : Type 0 where
    pub named :
        (w : W) (ns name : String) (p : TrafficPolicy)
        → client.get w ns name ≡ ok p
        → (p.namespace ≡ ns) × (p.name ≡ name)
    pub patched :
        (w : W) (changed p : TrafficPolicy)
        → client.get w p.namespace p.name ≡ ok p
        → changed.namespace ≡ p.namespace
        → changed.name ≡ p.name
        → (client.patch w changed p).1 ≡ none
        → (g : ℤ) × (client.get (client.patch w changed p).0 p.namespace p.name
            ≡ ok (regenerated g changed))

  say_toggled-world :
      (ns name : String) (paused : Bool) (r : W × Option String) (o : O)
      → (say_toggled client out ns name paused r o).0 ≡ r.0
  unfolding say_toggled
  say_toggled-world ns name paused (w, some e) o = refl
  say_toggled-world ns name paused (w, none) o = refl

  -- How a call of `togglePaused` ends, for what `Get` returns: `w'` is the cluster that it leaves.
  abbrev pub Toggled :
      String → String → Bool → W → Result TrafficPolicy → W → Option String → Type 0
  Toggled ns name paused w (fails e) w' err = (w' ≡ w) × (err ≡ some (append "get policy: " e))
  Toggled ns name paused w (ok p) w' err =
      ((p.spec.paused ≡ paused) × (w' ≡ w))
      ⊎ ((p.spec.paused ≡ not paused)
          × (w' ≡ (client.patch w (with_paused paused p) p).0)
          × ((e : String)
              → (client.patch w (with_paused paused p) p).1 ≡ some e
              → err ≡ some (append "patch policy: " e)))

  say_toggled-error :
      (ns name : String) (paused : Bool) (r : W × Option String) (o : O) (e : String)
      → r.1 ≡ some e
      → (say_toggled client out ns name paused r o).1.1 ≡ some (append "patch policy: " e)
  unfolding say_toggled
  say_toggled-error ns name paused (w, some e') o e h = cc
  say_toggled-error ns name paused (w, none) o e h = cc

  said_error :
      (ns name : String) (paused : Bool) (r : W × Option String) (o : O)
      → (say_toggled client out ns name paused r o).1.1 ≡ none
      → r.1 ≡ none
  unfolding say_toggled
  said_error ns name paused (w, some e) o h = cc
  said_error ns name paused (w, none) o h = refl

  pub toggle_read-Toggled :
      (w : W) (ns name : String) (paused : Bool) (o : O) (r : Result TrafficPolicy)
      → (let out' = toggle_read client out w ns name paused o r in
          Toggled ns name paused w r out'.0 out'.1.1)
  unfolding toggle_read
  toggle_read-Toggled w ns name paused o (fails e) = (refl, refl)
  toggle_read-Toggled w ns name paused o (ok p) =
      elim (Bool-cases (same_bool p.spec.paused paused)) [
        | inl same ↦ rw same (inl (same_bool-true p.spec.paused paused same, refl))
        | inr other ↦
            let r = client.patch w (with_paused paused p) p in
            rw other (
              inr (
                same_bool-false p.spec.paused paused other,
                say_toggled-world ns name paused r o,
                say_toggled-error ns name paused r o,
              ))
      ]

  -- On every answer of the client: an error of `Get` is returned and nothing is written; a policy that
  -- is as asked for is left alone, without a patch; any other is patched once, with the pause flag
  -- alone changed, and an error of the patch is returned.
  pub toggle_paused_lem :
      (w : W) (ns name : String) (paused : Bool) (o : O)
      → (let out' = toggle_paused client out w ns name paused o in
          Toggled ns name paused w (client.get w ns name) out'.0 out'.1.1)
  unfolding toggle_paused
  toggle_paused_lem w ns name paused o =
      toggle_read-Toggled w ns name paused o (client.get w ns name)

  opened :
      (w : W) (ns name : String) (paused : Bool) (o : O) (p : TrafficPolicy)
      → client.get w ns name ≡ ok p
      → toggle_paused client out w ns name paused o
        ≡ toggle_read client out w ns name paused o (ok p)
  unfolding toggle_paused
  opened w ns name paused o p stored = ap (toggle_read client out w ns name paused o) stored

  read-stored :
      Keeps
      → (w : W) (ns name : String) (paused : Bool) (o : O) (p : TrafficPolicy)
      → client.get w ns name ≡ ok p
      → (toggle_read client out w ns name paused o (ok p)).1.1 ≡ none
      → (g : ℤ) × (client.get (toggle_read client out w ns name paused o (ok p)).0 ns name
          ≡ ok (regenerated g (with_paused paused p)))
  unfolding toggle_read
  read-stored k w ns name paused o p stored h = elim (Bool-cases (same_bool p.spec.paused paused)) [
    | inl same ↦
        let e = same_bool-true p.spec.paused paused same in
        rw same (p.generation, stored ∙ ap (λ (b : Bool). ok (with_paused b p)) e)
    | inr other ↦
        let (ns_same, name_same) = k.named w ns name p stored in
        let key : (v : W) → client.get v p.namespace p.name ≡ client.get v ns name =
          λ v. ap₂ (λ a b. client.get v a b) ns_same name_same in
        let changed = with_paused paused p in
        let told = rw other at h in
        let (g, kept) =
          k.patched w changed p (key w ∙ stored) refl refl
            (said_error ns name paused (client.patch w changed p) o told) in
        rw (other, say_toggled-world ns name paused (client.patch w changed p) o)
          (g, sym (key (client.patch w changed p).0) ∙ kept)
  ]

  -- With a client that keeps what it is given: after a call for a stored policy that reports no
  -- error, the stored policy has the pause flag that was asked for and is the same otherwise, its
  -- generation aside.
  pub toggle_paused-get :
      Keeps
      → (w : W) (ns name : String) (paused : Bool) (o : O) (p : TrafficPolicy)
      → client.get w ns name ≡ ok p
      → (toggle_paused client out w ns name paused o).1.1 ≡ none
      → (g : ℤ) × (client.get (toggle_paused client out w ns name paused o).0 ns name
          ≡ ok (regenerated g (with_paused paused p)))
  toggle_paused-get k w ns name paused o p stored h =
      let e = opened w ns name paused o p stored in
      rw e (read-stored k w ns name paused o p stored (rw e at h))

  -- With a client that keeps what it is given: freezing a stored policy that is not paused and then
  -- resuming it, both without an error, gives back the
  -- stored policy, its generation aside.
  pub freeze-resume :
      Keeps
      → (w : W) (ns name : String) (o o' : O) (p : TrafficPolicy) → client.get w ns name ≡ ok p
      → p.spec.paused ≡ false
      → (let frozen = toggle_paused client out w ns name true o in
          let resumed = toggle_paused client out frozen.0 ns name false o' in
          frozen.1.1 ≡ none
          → resumed.1.1 ≡ none
          → (g : ℤ) × (client.get resumed.0 ns name ≡ ok (regenerated g p)))
  freeze-resume k w ns name o o' p stored active h h' =
      let (g, kept) = toggle_paused-get k w ns name true o p stored h in
      let frozen = regenerated g (with_paused true p) in
      let (g', kept') =
        toggle_paused-get k (toggle_paused client out w ns name true o).0 ns name false o' frozen
          kept h' in
      (g', kept' ∙ ap (λ (b : Bool). ok (regenerated g' (with_paused b p))) (sym active))

  same_bool_refl : (b : Bool) → same_bool b b ≡ true
  same_bool_refl true = refl
  same_bool_refl false = refl

  bool_text_lem : (b : Bool) → bool_text b ≡ (if b then "true" else "false")
  bool_text_lem true = refl
  bool_text_lem false = refl

  -- With a client that keeps what it is given: after a `freeze` or a `resume` of a stored policy that
  -- reports no error, the same command again patches nothing, and prints that there is nothing to do.
  pub toggle_paused_idem :
      Keeps
      → (w : W) (ns name : String) (paused : Bool) (o o' : O) (p : TrafficPolicy)
      → client.get w ns name ≡ ok p
      → (toggle_paused client out w ns name paused o).1.1 ≡ none
      → (let w' = (toggle_paused client out w ns name paused o).0 in
          toggle_paused client out w' ns name paused o' ≡ (
            w',
            line out
                (append ns (
                  append "/" (
                    append name (
                      append " already paused="
                        (append (if paused then "true" else "false") "; nothing to do\n")))))
                o',
          ))
  unfolding toggle_paused toggle_read
  toggle_paused_idem k w ns name paused o o' p stored h =
      let (g, kept) = toggle_paused-get k w ns name paused o p stored h in
      let w' = (toggle_paused client out w ns name paused o).0 in
      opened w' ns name paused o' (regenerated g (with_paused paused p)) kept
      ∙ rw (same_bool_refl paused, bool_text_lem paused) refl
