-- ===== src/Hub/Store/Cutting.antt =====
-- A list of logged messages, cut where one call of the store ends.
use ws_cluster.Common.{
  ℕ, zero, suc, ◌≡◌, refl, sym, ◌∙◌, ap, List, [], ◌∷◌, ◌++◌, append_assoc, append-nil, length, map,
  take, drop, take-append, drop-append, take-append-drop, Option, some, All, arith,
}
use ws_cluster.Wire.Message.{Message}
use ws_cluster.Wire.Message.RoundTrip.{message_bytes}
use mathlib.Core.Path.{subst}
use ws_cluster.Hub.Store.{ChatMsg, Sorted}
use ws_cluster.Hub.Store.Sorting.{body_rows, rows, joined, buffers}

pub rows-append :
    (now typ : ℕ) (xs ys : List Message)
    → rows now typ (xs ++ ys) ≡ rows now typ xs ++ rows now typ ys
rows-append now typ [] ys = refl
rows-append now typ (x ∷ xs) ys =
    rw (rows-append now typ xs ys)
      (sym (append_assoc (body_rows now typ x.header x.body) (rows now typ xs) (rows now typ ys)))

take-map : {A B : Type 0} (f : A → B) (n : ℕ) (xs : List A) → take n (map f xs) ≡ map f (take n xs)
take-map f zero xs = refl
take-map f (suc n) [] = refl
take-map f (suc n) (x ∷ xs) = ap (λ t. f x ∷ t) (take-map f n xs)

drop-map : {A B : Type 0} (f : A → B) (n : ℕ) (xs : List A) → drop n (map f xs) ≡ map f (drop n xs)
drop-map f zero xs = refl
drop-map f (suc n) [] = refl
drop-map f (suc n) (x ∷ xs) = drop-map f n xs

pub All-take : {A : Type 0} (P : A → Type 0) (n : ℕ) (xs : List A) → All P xs → All P (take n xs)
All-take P zero xs h = tt
All-take P (suc n) [] h = tt
All-take P (suc n) (x ∷ xs) h = (h.0, All-take P n xs h.1)

pub All-drop : {A : Type 0} (P : A → Type 0) (n : ℕ) (xs : List A) → All P xs → All P (drop n xs)
All-drop P zero xs h = h
All-drop P (suc n) [] h = tt
All-drop P (suc n) (x ∷ xs) h = All-drop P n xs h.1

-- The front of the records is that of the messages.
pub cut_buffers :
    (bufs later : List (Option (List ℕ))) (ms : List Message)
    → bufs ++ later ≡ buffers ms
    → (bufs ≡ buffers (take (length bufs) ms)) × (later ≡ buffers (drop (length bufs) ms))
cut_buffers bufs later ms e =
    let n = length bufs in
    (
      sym (take-append (length bufs) bufs later refl)
          ∙ ap (take n) e
          ∙ take-map some n (map message_bytes ms)
          ∙ ap (map some) (take-map message_bytes n ms),
      sym (drop-append (length bufs) bufs later refl)
          ∙ ap (drop n) e
          ∙ drop-map some n (map message_bytes ms)
          ∙ ap (map some) (drop-map message_bytes n ms),
    )

pub joined-nil : (s : Sorted) → joined s [] [] ≡ s
joined-nil s i = record { chatmsgs = append-nil s.chatmsgs i; groupmsgs = append-nil s.groupmsgs i }

pub joined-joined :
    (s : Sorted) (c c' g g' : List ChatMsg)
    → joined (joined s c g) c' g' ≡ joined s (c ++ c') (g ++ g')
joined-joined s c c' g g' i = record {
  chatmsgs = append_assoc s.chatmsgs c c' i;
  groupmsgs = append_assoc s.groupmsgs g g' i;
}

pub nil_not_cons : {A : Type 0} {x : A} {xs : List A} → [] ≡ x ∷ xs → ⊥
nil_not_cons {x = x} {xs = xs} e =
    let none_left : 0 ≡ length (x ∷ xs) = ap (λ (t : List _). length t) e in omega arith

All-front : {A : Type 0} (P : A → Type 0) (xs ys : List A) → All P (xs ++ ys) → All P xs
All-front P [] ys h = tt
All-front P (x ∷ xs) ys h = (h.0, All-front P xs ys h.1)

All-back : {A : Type 0} (P : A → Type 0) (xs ys : List A) → All P (xs ++ ys) → All P ys
All-back P [] ys h = h
All-back P (x ∷ xs) ys h = All-back P xs ys h.1

-- The rows of the front of the messages, and of the others.
pub All-cut :
    (P : ChatMsg → Type 0) (now typ n : ℕ) (ms : List Message)
    → All P (rows now typ ms)
    → All P (rows now typ (take n ms)) × All P (rows now typ (drop n ms))
All-cut P now typ n ms h =
    let whole : rows now typ ms ≡ rows now typ (take n ms) ++ rows now typ (drop n ms) =
      ap (rows now typ) (sym (take-append-drop n ms))
      ∙ rows-append now typ (take n ms) (drop n ms) in
    let cut = subst (λ x. All P x) whole h in (All-front P _ _ cut, All-back P _ _ cut)
