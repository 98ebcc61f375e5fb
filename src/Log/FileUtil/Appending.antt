-- ===== src/Log/FileUtil/Appending.antt =====
-- log/FileUtil.cc: the loop of `append`.
use mathlib.Core.List.{append_assoc, append-nil}
use kama_webserver.Prelude.{
  ℕ, zero, suc, ◌+◌, ◌≤◌, ◌<◌, ◌≡◌, refl, sym, ap, ◌∙◌, ◌⊎◌, inl, inr, Bool-cases, not, ◌&&◌,
  Option, some, List, [], ◌∷◌, ◌++◌, length, take, drop, ◌==◌, arith, length-drop, length-take,
  length-append, take-append-drop,
}
use kama_webserver.Log.FileUtil.{FileUtil, Taken, take_bytes, count_bytes, append_loop, append}

-- A call takes no more than it is offered, and if it takes nothing, ferror says why.
pub record IsProgressing (fwrite : ℕ → ℕ → Taken) : Type 0 where
  pub within : (k n : ℕ) → (fwrite k n).count ≤ n
  pub moves : (k n : ℕ) → 0 < n → (fwrite k n).count ≡ 0 → 0 < (fwrite k n).error

-- The outcome: a front part of the bytes is in the file, behind what was there; either it is all of
-- them and all are counted, or ferror told of an error, and no more than what is in the file is counted.
pub record IsAppended (fwrite : ℕ → ℕ → Taken) (bytes : List ℕ) (writen : ℕ) (f : FileUtil)
    (r : Option FileUtil) : Type 0 where
  pub after : FileUtil
  pub result : r ≡ some after
  pub front : List ℕ
  pub back : List ℕ
  pub split : front ++ back ≡ bytes
  pub contents : after.contents ≡ f.contents ++ front
  pub counted :
      ((back ≡ []) × (after.written_bytes ≡ f.written_bytes + writen + length bytes))
      ⊎ ((i : ℕ) × (m : ℕ) × (0 < (fwrite i m).error)
          × (f.written_bytes + writen ≤ after.written_bytes)
          × (after.written_bytes ≤ f.written_bytes + writen + length front))
  pub name : after.name ≡ f.name
  pub flushed : after.flushed ≡ f.flushed

append_loop-IsAppended :
    (fuel k : ℕ) (fwrite : ℕ → ℕ → Taken) (writen : ℕ) (bytes : List ℕ) (f : FileUtil)
    → IsProgressing fwrite
    → length bytes < suc fuel
    → IsAppended fwrite bytes writen f (append_loop fuel k fwrite writen bytes f)
unfolding append_loop
append_loop-IsAppended zero k fwrite writen [] f p enough = record {
  after = count_bytes writen f;
  result = refl;
  front = [];
  back = [];
  split = refl;
  contents = sym (append-nil f.contents);
  counted = inl (refl, omega arith);
  name = refl;
  flushed = refl;
}
append_loop-IsAppended (suc fuel) k fwrite writen [] f p enough = record {
  after = count_bytes writen f;
  result = refl;
  front = [];
  back = [];
  split = refl;
  contents = sym (append-nil f.contents);
  counted = inl (refl, omega arith);
  name = refl;
  flushed = refl;
}
append_loop-IsAppended zero k fwrite writen (b ∷ bs) f p enough = absurd (omega arith)
append_loop-IsAppended (suc fuel) k fwrite writen (b ∷ bs) f p enough =
    elim (Bool-cases (not (n == length bytes) && not (taken.error == 0))) [
      | inl stops ↦ simp stops (record {
        after = count_bytes writen (take_bytes n bytes f);
        result = refl;
        front = take n bytes;
        back = drop n bytes;
        split = take-append-drop n bytes;
        contents = refl;
        counted = inr (k, length bytes, ground (arith, stops), omega arith, omega arith);
        name = refl;
        flushed = refl;
      })
      | inr goes ↦
          let r =
            append_loop-IsAppended fuel (suc k) fwrite (writen + n) (drop n bytes)
              (take_bytes n bytes f) p
              (ground (arith, goes, length-drop n bytes, p.moves k (length bytes))) in
          simp goes (record {
            after = r.after;
            result = r.result;
            front = take n bytes ++ r.front;
            back = r.back;
            split =
                append_assoc (take n bytes) r.front r.back
                ∙ ap (◌++◌ (take n bytes)) r.split
                ∙ take-append-drop n bytes;
            contents = r.contents ∙ append_assoc f.contents (take n bytes) r.front;
            counted = elim r.counted [
              | inl (e, w) ↦
                  inl (e, omega (arith, w, length-drop n bytes, p.within k (length bytes)))
              | inr (i, m, failed, lo, hi) ↦ inr (
                i,
                m,
                failed,
                omega (arith, lo),
                omega (
                  arith,
                  hi,
                  length-append (take n bytes) r.front,
                  length-take n bytes,
                  p.within k (length bytes),
                ),
              )
            ];
            name = r.name;
            flushed = r.flushed;
          })
    ]
  where
    bytes : List ℕ
    bytes = b ∷ bs

    taken : Taken
    taken = fwrite k (length bytes)

    n : ℕ
    n = taken.count

-- If fwrite takes no more than it is offered and takes nothing only with an error, and the fuel is as
-- large as the number of bytes, then append ends. A front part of the bytes stands behind what was in
-- the file; it is all of them, and all are counted in writtenBytes_, unless a call told of an error;
-- then what is counted is at most what came into the file.
pub append-IsAppended :
    (fuel : ℕ) (fwrite : ℕ → ℕ → Taken) (bytes : List ℕ) (f : FileUtil)
    → IsProgressing fwrite
    → length bytes ≤ fuel
    → IsAppended fwrite bytes 0 f (append fuel fwrite bytes f)
unfolding append
append-IsAppended fuel fwrite bytes f p enough =
    append_loop-IsAppended fuel 0 fwrite 0 bytes f p (omega arith)
