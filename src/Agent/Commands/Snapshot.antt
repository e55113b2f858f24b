-- ===== src/Agent/Commands/Snapshot.antt =====
-- A snapshot on the wire, read back by a receiver that cuts it into lines and fields.
use mathlib.Core.List.{map-append}
use cardputer_zero_os.Base.{
  ℕ, ◌≡◌, refl, ap, sym, ◌∙◌, List, [], ◌∷◌, ◌++◌, map, append_assoc, append-nil, Bytes, codes,
  keep, All, All-append, All-mono, IsByte, Lacks, to_string, to_string-IsDigit, arith,
}
use cardputer_zero_os.Agent.Wire.{newline, encode, decode, split_tabs}
use cardputer_zero_os.Agent.Wire.Codec.{encode_literal}
use cardputer_zero_os.Agent.Wire.Fields.{join_tabs, split_tabs-encode, join_tabs-encode-Lacks}
use cardputer_zero_os.Agent.Stream.{lines, unlines, unlines-append, lines-unlines}
use cardputer_zero_os.Agent.State.{Task, Client, Agent, state_string}
use cardputer_zero_os.Agent.Events.Ids.{is_open}
use cardputer_zero_os.Agent.Commands.{
  send, send_tasks, send_snapshot, task_line, write_tasks, write_snapshot,
}

-- The texts of a task are bytes.
abbrev pub IsText : Task → Type 0
IsText t = All IsByte t.app_id × All IsByte t.title

-- What a task line says.
abbrev pub task_fields : Task → List Bytes
task_fields t = codes "task" ∷ (b't' ∷ to_string t.id) ∷ t.app_id ∷ t.title ∷ state_string t ∷ []

-- The lines of a snapshot.
abbrev pub snapshot_lines : Agent → List Bytes
snapshot_lines a =
    codes "snapshot-begin" ∷ (map task_line (keep is_open a.tasks) ++ codes "snapshot-end" ∷ [])

send_tasks-output :
    (ts : List Task) (c : Client)
    → (send_tasks ts c).output ≡ c.output ++ unlines (map task_line (keep is_open ts))
unfolding send_tasks
send_tasks-output [] c = sym (append-nil c.output)
send_tasks-output (t ∷ ts) c = ground (
  arith,
  send_tasks-output ts c,
  send_tasks-output ts (send c (task_line t)),
  append_line c.output (task_line t) (unlines (map task_line (keep is_open ts))),
)
  where
    append_line : (o l r : Bytes) → (o ++ l ++ newline ∷ []) ++ r ≡ o ++ (l ++ newline ∷ r)
    append_line o l r = simp append_assoc

-- A snapshot appends its lines to the client's output.
pub send_snapshot-output :
    (a : Agent) (c : Client) → (send_snapshot a c).output ≡ c.output ++ unlines (snapshot_lines a)
unfolding send_snapshot
send_snapshot-output a c =
    rw (send_tasks-output a.tasks (send c (codes "snapshot-begin")))
      (snapshot_text c.output (map task_line (keep is_open a.tasks)))
  where
    snapshot_text :
        (o : Bytes) (ls : List Bytes)
        → ((o ++ codes "snapshot-begin" ++ newline ∷ []) ++ unlines ls)
            ++ codes "snapshot-end"
            ++ newline ∷ []
          ≡ o ++ unlines (codes "snapshot-begin" ∷ (ls ++ codes "snapshot-end" ∷ []))
    snapshot_text o ls = simp (append_assoc, unlines-append ls)

write_tasks-unlines : (ts : List Task) → write_tasks ts ≡ unlines (map task_line (keep is_open ts))
unfolding write_tasks
write_tasks-unlines [] = refl
write_tasks-unlines (t ∷ ts) = ground (arith, write_tasks-unlines ts)

-- `--once` prints the very text that a client is sent.
write_snapshot-unlines : (a : Agent) → write_snapshot a ≡ unlines (snapshot_lines a)
unfolding write_snapshot
write_snapshot-unlines a = rw (
  write_tasks-unlines a.tasks,
  unlines-append (map task_line (keep is_open a.tasks)) (codes "snapshot-end" ∷ []),
)

encode-id : (n : ℕ) → encode (b't' ∷ to_string n) ≡ b't' ∷ to_string n
encode-id n =
    encode_literal (b't' ∷ to_string n)
      (omega arith, All-mono (to_string n) (λ c h. omega arith) (to_string-IsDigit n))

task_line-join_tabs : (t : Task) → task_line t ≡ join_tabs (map encode (task_fields t))
unfolding task_line
task_line-join_tabs t = rw (encode-id t.id, encode_literal (codes "task") (omega arith))

state_string-IsByte : (t : Task) → All IsByte (state_string t)
unfolding state_string
state_string-IsByte t = ground arith

fields_bytes : (t : Task) → IsText t → All (All IsByte) (task_fields t)
fields_bytes t (happ, htitle) = (
  omega arith,
  (
    (omega arith, All-mono (to_string t.id) (λ c h. omega arith) (to_string-IsDigit t.id)),
    (happ, (htitle, (state_string-IsByte t, tt))),
  ),
)

task_line-split_tabs : (t : Task) → IsText t → split_tabs (task_line t) ≡ task_fields t
task_line-split_tabs t h =
    ap split_tabs (task_line-join_tabs t) ∙ split_tabs-encode _ _ (fields_bytes t h)

map-split_tabs :
    (ts : List Task)
    → All IsText ts
    → map split_tabs (map task_line (keep is_open ts)) ≡ map task_fields (keep is_open ts)
map-split_tabs [] h = refl
map-split_tabs (t ∷ ts) (ht, h) = ground (arith, task_line-split_tabs t ht, map-split_tabs ts h)

map-Lacks : (ts : List Task) → All IsText ts → All (Lacks newline) (map task_line (keep is_open ts))
map-Lacks [] h = tt
map-Lacks (t ∷ ts) (ht, h) = ground (arith, line, map-Lacks ts h)
  where
    line : Lacks newline (task_line t)
    line = rw (task_line-join_tabs t) (join_tabs-encode-Lacks (task_fields t) (fields_bytes t ht))

-- The messages of a snapshot.
abbrev pub snapshot_messages : Agent → List (List Bytes)
snapshot_messages a =
    (codes "snapshot-begin" ∷ [])
    ∷ (map task_fields (keep is_open a.tasks) ++ (codes "snapshot-end" ∷ []) ∷ [])

begin_mark : split_tabs (codes "snapshot-begin") ≡ codes "snapshot-begin" ∷ []
unfolding split_tabs decode
begin_mark = refl

end_mark : split_tabs (codes "snapshot-end") ≡ codes "snapshot-end" ∷ []
unfolding split_tabs decode
end_mark = refl

-- A receiver that cuts a snapshot into lines and the lines into fields reads the open tasks in order,
-- with their texts as the compositor gave them, between the two marks, and nothing is left over.
pub snapshot_read :
    (a : Agent) (c : Client)
    → c.output ≡ []
    → All IsText a.tasks
    → let (ls, rest) = lines (send_snapshot a c).output in
      (map split_tabs ls ≡ snapshot_messages a) × (rest ≡ [])
snapshot_read a c e h = rw (text_read) (messages, refl)
  where
    marks : All (Lacks newline) (snapshot_lines a)
    marks = (
      omega arith,
      All-append (Lacks newline) (map task_line (keep is_open a.tasks)) _ (map-Lacks a.tasks h)
          (omega arith, tt),
    )

    text_read : lines (send_snapshot a c).output ≡ (snapshot_lines a, [])
    text_read =
        ap lines (send_snapshot-output a c ∙ ap (λ o. o ++ unlines (snapshot_lines a)) e)
        ∙ lines-unlines (snapshot_lines a) marks

    messages : map split_tabs (snapshot_lines a) ≡ snapshot_messages a
    messages = rw (
      begin_mark,
      map-append split_tabs (map task_line (keep is_open a.tasks)) (codes "snapshot-end" ∷ []),
      map-split_tabs a.tasks h,
      end_mark,
    )
