-- ===== src/Filelog/File/Reopen.antt =====
-- The numbers at the front of the file are those of the log, so that a log that is opened over the
-- file goes on where this one stands.
use ws_cluster.Common.{
  ℕ, suc, ◌+◌, ◌*◌, ◌%◌, ◌^◌, ◌<◌, ◌≡◌, refl, sym, ◌∙◌, ap, Bool, true, false, List, [], ◌∷◌, ◌++◌,
  length, drop, All, arith, ◌==◌, Bool-cases, inl, inr,
}
use ws_cluster.Wire.Io.{le_bytes}
use ws_cluster.Wire.Io.Laws.{le_value-le_bytes}
use ws_cluster.Filelog.File.{
  block_size, FileLog, complete, short, overwrite, write_at, put_uint32, get_uint32, truncate,
  append_block, get_block, count_read, Calls, new_file_log, got,
}
use ws_cluster.Filelog.File.Layout.{
  Call, append, get, run_call, fifo_call, IsSound, empty_log, Holds, fresh, laid_out, Holds-locked,
  Holds-none,
}
use ws_cluster.Filelog.File.Getting.{get_block-first, get_block-none}
use ws_cluster.Filelog.File.Fifo.{call-Holds}

abbrev pub numbers : ℕ → ℕ → List ℕ
numbers readblock writeblock = le_bytes 4 (readblock % 2 ^ 32) ++ le_bytes 4 (writeblock % 2 ^ 32)

-- The file is empty, and so is the log; or it starts with the numbers of the log.
pub data IsSaved (flog : FileLog) : Type 0 where
  nothing : flog ≡ empty_log → IsSaved flog
  saved :
      (rest : List ℕ) → flog.file ≡ numbers flog.readblock flog.writeblock ++ rest → IsSaved flog

-- A call all of whose writes succeed.
abbrev pub IsPerfect : Call → Type 0
IsPerfect (append complete complete b) = Unit {0}
IsPerfect (append o o' b) = ⊥
IsPerfect (get calls) =
    (calls.resets ≡ complete) × (calls.truncates ≡ true) × (calls.counts ≡ complete)

put_write_number :
    (r w v : ℕ) (rest : List ℕ)
    → put_uint32 complete v 4 (numbers r w ++ rest) ≡ numbers r v ++ rest
unfolding put_uint32 write_at overwrite
put_write_number r w v rest = refl

put_read_number :
    (r w v : ℕ) (rest : List ℕ)
    → put_uint32 complete v 0 (numbers r w ++ rest) ≡ numbers v w ++ rest
unfolding put_uint32 write_at overwrite
put_read_number r w v rest = refl

write_at-behind :
    (i : ℕ) (src : List ℕ) (r w : ℕ) (rest : List ℕ)
    → write_at (i + 8) src (numbers r w ++ rest) ≡ numbers r w ++ write_at i src rest
unfolding write_at overwrite
write_at-behind i [] r w rest = refl
write_at-behind i (b ∷ src) r w rest = rw (eight_more i)
  where
    eight_more : (j : ℕ) → j + 8 ≡ suc (suc (suc (suc (suc (suc (suc (suc j)))))))
    eight_more j = omega arith

append-IsSaved :
    (b : List ℕ) (flog : FileLog)
    → flog.locked ≡ false
    → IsSaved flog
    → IsSaved (append_block complete complete b flog).1
unfolding append_block
append-IsSaved b flog l (nothing e) = rw e (first b)
  where
    first : (b : List ℕ) → IsSaved (append_block complete complete b empty_log).1
    first [] = unfold put_uint32 in unfold write_at in unfold overwrite in saved [] refl
    first (x ∷ b) =
        unfold put_uint32 in
        unfold write_at in unfold overwrite in saved ((x ∷ b) ++ drop (length (x ∷ b)) []) refl
append-IsSaved b flog l (saved rest f) = rw l (
    saved (write_at (flog.writeblock * block_size) b rest) (
      ap (put_uint32 complete (flog.writeblock + 1) 4) (
        ap (write_at (flog.writeblock * block_size + 8) b) f
        ∙ write_at-behind (flog.writeblock * block_size) b flog.readblock flog.writeblock rest)
      ∙ put_write_number flog.readblock flog.writeblock (flog.writeblock + 1)
          (write_at (flog.writeblock * block_size) b rest)))

cut_to_numbers : (r w : ℕ) (rest : List ℕ) → truncate 8 (numbers r w ++ rest) ≡ numbers r w ++ []
unfolding truncate
cut_to_numbers r w rest = refl

count_read-IsSaved :
    (calls : Calls) (flog : FileLog) (rest : List ℕ)
    → IsPerfect (get calls)
    → flog.file ≡ numbers flog.readblock flog.writeblock ++ rest
    → IsSaved (count_read calls flog)
unfolding count_read
count_read-IsSaved calls flog rest (a, b, c) f =
    rw (a, b, c)
      (elim (Bool-cases (flog.readblock + 1 == flog.writeblock)) [
        | inl last ↦ rw last (
            saved [] (
              ap (put_uint32 complete 0 0) (
                ap (λ t. truncate 8 (put_uint32 complete 0 4 t)) f
                ∙ ap (truncate 8) (put_write_number flog.readblock flog.writeblock 0 rest)
                ∙ cut_to_numbers flog.readblock 0 rest)
              ∙ put_read_number flog.readblock 0 0 []))
        | inr more ↦ rw more (
            saved rest (
              ap (put_uint32 complete (flog.readblock + 1) 0) f
              ∙ put_read_number flog.readblock flog.writeblock (flog.readblock + 1) rest))
      ])

call-IsSaved :
    (c : Call) (flog : FileLog) (q : List (List ℕ))
    → IsSound c
    → IsPerfect c
    → Holds flog q
    → IsSaved flog
    → IsSaved (run_call c flog).1
call-IsSaved (append complete complete b) flog q h p v s = append-IsSaved b flog (Holds-locked v) s
call-IsSaved (append complete (short n) b) flog q h p v s = absurd p
call-IsSaved (append (short n) o' b) flog q h p v s = absurd p
call-IsSaved (get calls) flog [] h p v s =
    rw (get_block-none calls flog (Holds-locked v) (Holds-none v)) s
call-IsSaved (get calls) flog (b ∷ q) h p (fresh e d) s = absurd (cc d)
call-IsSaved (get calls) flog (b ∷ q) h p (laid_out r head old junk hs os sizes e) (nothing d) =
    absurd (omega (arith, ap (λ (l : FileLog). l.writeblock) (sym e ∙ d)))
call-IsSaved (get calls) flog (b ∷ q) h p (laid_out r head old junk hs os sizes e) (saved rest f) =
    let first = get_block-first r head old b q junk hs os sizes.0 sizes.1 calls h in
    rw (ap (get_block calls) e ∙ first ∙ ap (λ l. (got b, count_read calls l)) (sym e))
      (count_read-IsSaved calls flog rest p f)

-- The log after some calls.
abbrev pub after_calls : List Call → FileLog → FileLog
after_calls [] flog = flog
after_calls (c ∷ cs) flog = after_calls cs (run_call c flog).1

calls-IsSaved :
    (cs : List Call) (flog : FileLog) (q : List (List ℕ))
    → All IsSound cs
    → All IsPerfect cs
    → Holds flog q
    → IsSaved flog
    → IsSaved (after_calls cs flog) × ((after_calls cs flog).locked ≡ false)
calls-IsSaved [] flog q h p v s = (s, Holds-locked v)
calls-IsSaved (c ∷ cs) flog q h p v s =
    calls-IsSaved cs (run_call c flog).1 (fifo_call c q).1 h.1 p.1 (call-Holds c flog q h.0 v).1
      (call-IsSaved c flog q h.0 p.0 v s)

number_at_0 : (r w : ℕ) (rest : List ℕ) → get_uint32 0 (numbers r w ++ rest) ≡ r % 2 ^ 32
unfolding get_uint32
number_at_0 r w rest = le_value-le_bytes 4 (r % 2 ^ 32) (omega arith)

number_at_4 : (r w : ℕ) (rest : List ℕ) → get_uint32 4 (numbers r w ++ rest) ≡ w % 2 ^ 32
unfolding get_uint32
number_at_4 r w rest = le_value-le_bytes 4 (w % 2 ^ 32) (omega arith)

same_fields :
    (w v r s : ℕ) (f : List ℕ) (l m : Bool)
    → w ≡ v
    → r ≡ s
    → l ≡ m
    → Path FileLog
        (record { writeblock = w; readblock = r; file = f; locked = l })
        (record { writeblock = v; readblock = s; file = f; locked = m })
same_fields w v r s f l m e d k = rw (e, d, k)

new_file_log-empty : new_file_log [] ≡ empty_log
unfolding new_file_log get_uint32
new_file_log-empty = refl

reopened :
    (flog : FileLog)
    → IsSaved flog
    → flog.locked ≡ false
    → flog.readblock < 2 ^ 32
    → flog.writeblock < 2 ^ 32
    → new_file_log flog.file ≡ flog
reopened flog (nothing e) l hr hw = rw e new_file_log-empty
reopened flog (saved rest f) l hr hw =
    unfold new_file_log in
    same_fields _ _ _ _ _ _ _
      (ap (get_uint32 4) f ∙ number_at_4 flog.readblock flog.writeblock rest ∙ omega arith)
      (ap (get_uint32 0) f ∙ number_at_0 flog.readblock flog.writeblock rest ∙ omega arith) (sym l)

-- After any calls none of whose accesses of the file fails, on a file that is empty at first, a log
-- that is opened over the file has the numbers of this one, as long as they fit in 32 bits: no block
-- is lost and none is read again.
pub new_file_log-after_calls :
    (cs : List Call)
    → All IsSound cs
    → All IsPerfect cs
    → (after_calls cs (new_file_log [])).readblock < 2 ^ 32
    → (after_calls cs (new_file_log [])).writeblock < 2 ^ 32
    → new_file_log (after_calls cs (new_file_log [])).file ≡ after_calls cs (new_file_log [])
new_file_log-after_calls cs h p hr hw =
    let (s, l) =
      calls-IsSaved cs (new_file_log []) [] h p (fresh new_file_log-empty refl)
        (nothing new_file_log-empty) in
    reopened (after_calls cs (new_file_log [])) s l hr hw
