-- ===== src/Agent/Wire/Fields.antt =====
-- `split_tabs` on lines whose fields were written by `encode`.
use cardputer_zero_os.Base.{
  ℕ, zero, suc, ◌≤◌, ◌<◌, ◌≡◌, ◌≢◌, refl, ap, ◌∙◌, List, [], ◌∷◌, ◌++◌, map, Bytes, All, All-append,
  IsByte, Lacks, length, length-append, find_cut-Lacks, find_cut-append, arith,
}
use cardputer_zero_os.Agent.Wire.{tab, newline, encode, decode, split_loop, split_tabs}
use cardputer_zero_os.Agent.Wire.Codec.{encode-IsPlain, IsPlain-Lacks, decode-encode}

-- A line of raw fields, as the senders write it with "\t".
abbrev pub join_tabs : List Bytes → Bytes
join_tabs [] = []
join_tabs (f ∷ []) = f
join_tabs (f ∷ g ∷ fs) = f ++ tab ∷ join_tabs (g ∷ fs)

length-join_tabs : (f : Bytes) (fs : List Bytes) → length fs ≤ length (join_tabs (f ∷ fs))
length-join_tabs f [] = omega arith
length-join_tabs f (g ∷ fs) =
    omega (arith, length-join_tabs g fs, length-append f (tab ∷ join_tabs (g ∷ fs)))

split_loop-join_tabs :
    (f : Bytes) (fs : List Bytes) (fuel : ℕ)
    → length fs < fuel
    → All (Lacks tab) (f ∷ fs)
    → split_loop fuel (join_tabs (f ∷ fs)) ≡ map decode (f ∷ fs)
unfolding split_loop
split_loop-join_tabs f fs zero lt h = elim lt [ ]
split_loop-join_tabs f [] (suc fuel) lt (hf, h) = rw (find_cut-Lacks tab f hf, split_loop)
split_loop-join_tabs f (g ∷ fs) (suc fuel) lt (hf, h) =
    rw (find_cut-append tab f (join_tabs (g ∷ fs)) hf, split_loop)
      (ap (◌∷◌ (decode f)) (split_loop-join_tabs g fs fuel (omega arith) h))

-- A line is split at its tabs, and each field is decoded.
pub split_tabs-join_tabs :
    (f : Bytes) (fs : List Bytes)
    → All (Lacks tab) (f ∷ fs)
    → split_tabs (join_tabs (f ∷ fs)) ≡ map decode (f ∷ fs)
unfolding split_tabs
split_tabs-join_tabs f fs h =
    split_loop-join_tabs f fs (suc (length (join_tabs (f ∷ fs))))
      (omega (arith, length-join_tabs f fs)) h

map-encode-Lacks : (fs : List Bytes) → All (All IsByte) fs → All (Lacks tab) (map encode fs)
map-encode-Lacks [] h = tt
map-encode-Lacks (f ∷ fs) (hf, h) =
    (IsPlain-Lacks tab (encode f) (omega arith) (encode-IsPlain f hf), map-encode-Lacks fs h)

map-decode-encode : (fs : List Bytes) → All (All IsByte) fs → map decode (map encode fs) ≡ fs
map-decode-encode [] h = refl
map-decode-encode (f ∷ fs) (hf, h) = cc (decode-encode f hf, map-decode-encode fs h)

-- Fields that are encoded and joined by tabs come back from `split_tabs` as they were sent.
pub split_tabs-encode :
    (f : Bytes) (fs : List Bytes)
    → All (All IsByte) (f ∷ fs)
    → split_tabs (join_tabs (map encode (f ∷ fs))) ≡ f ∷ fs
split_tabs-encode f fs h =
    split_tabs-join_tabs (encode f) (map encode fs) (map-encode-Lacks (f ∷ fs) h)
    ∙ map-decode-encode (f ∷ fs) h

-- A line of encoded fields holds no newline.
pub join_tabs-encode-Lacks :
    (fs : List Bytes) → All (All IsByte) fs → Lacks newline (join_tabs (map encode fs))
join_tabs-encode-Lacks [] h = tt
join_tabs-encode-Lacks (f ∷ []) (hf, h) =
    IsPlain-Lacks newline (encode f) (omega arith) (encode-IsPlain f hf)
join_tabs-encode-Lacks (f ∷ g ∷ fs) (hf, h) =
    All-append (λ c. c ≢ newline) (encode f) _
      (IsPlain-Lacks newline (encode f) (omega arith) (encode-IsPlain f hf))
      (omega arith, join_tabs-encode-Lacks (g ∷ fs) h)
