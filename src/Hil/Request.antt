-- ===== src/Hil/Request.antt =====
-- `HIL::Request` and `ICL::Request` of util/def.hh and util/def.cc. The callback, its context and the
-- fields that wait for credit stay out.
use testing.Common.{ℕ}

pub data OpType : Type 0 where
  read_op : OpType
  write_op : OpType
  flush_op : OpType
  compare_op : OpType
  dataset_mgmt : OpType
  isc_set : OpType
  isc_get : OpType
  credit_only : OpType
  isc_result : OpType

pub record LpnRange : Type 0 where
  pub slpn : ℕ
  pub nlp : ℕ

pub record Request : Type 0 where
  pub req_id : ℕ
  pub req_sub_id : ℕ
  pub offset : ℕ
  pub length : ℕ
  pub range : LpnRange
  pub user_id : ℕ
  pub prio : ℕ
  pub op : OpType

pub record IclRequest : Type 0 where
  pub icl_id : ℕ
  pub icl_sub_id : ℕ
  pub icl_offset : ℕ
  pub icl_length : ℕ
  pub icl_range : LpnRange
  pub icl_user : ℕ
  pub icl_prio : ℕ

-- `ICL::Request(HIL::Request &)`.
abbrev pub to_icl : Request → IclRequest
to_icl r = record {
  icl_id = r.req_id;
  icl_sub_id = r.req_sub_id;
  icl_offset = r.offset;
  icl_length = r.length;
  icl_range = r.range;
  icl_user = r.user_id;
  icl_prio = r.prio;
}
