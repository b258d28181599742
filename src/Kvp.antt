-- ===== src/Kvp.antt =====
-- src/mnhttp.c: `mnhttp_parse_qterms` and `mnhttp_parse_kvpbd`, which store key-value pairs in a hash
-- of mncommon. The hash is any state with its `hash_set_item`.
mod Defs
mod Spec
mod Cut
mod Parse
mod Tests
