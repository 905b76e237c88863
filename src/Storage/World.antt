-- ===== src/Storage/World.antt =====
-- The tables that a transition reads and writes. What the side effects of a transition write
-- (grants, tasks, notifications) is `rest`.
use etik_bildirim_platformu.Storage.Table.{Table, list_table}
use etik_bildirim_platformu.Storage.Rows.{CaseRow, TransitionRow, UserRow, VoteRow}
use etik_bildirim_platformu.Audit.Publisher.{OutboxRow}

pub record Tables : Type 1 where
  pub cases : Table CaseRow
  pub transitions : Table TransitionRow
  pub users : Table UserRow
  pub votes : Table VoteRow
  pub outbox : Table OutboxRow
  pub Rest : Type 0

pub record World (t : Tables) : Type 0 where
  pub cases : t.cases.Store
  pub transitions : t.transitions.Store
  pub users : t.users.Store
  pub votes : t.votes.Store
  pub outbox : t.outbox.Store
  pub rest : t.Rest

-- Tables that store the lists of their rows.
abbrev pub list_tables : Type 0 → Tables
list_tables Rest = record {
  cases = list_table CaseRow;
  transitions = list_table TransitionRow;
  users = list_table UserRow;
  votes = list_table VoteRow;
  outbox = list_table OutboxRow;
  Rest = Rest;
}
