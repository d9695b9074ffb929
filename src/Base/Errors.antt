-- ===== src/Base/Errors.antt =====
-- The error codes of include/error.h that the modelled functions return.
pub data Error : Type 0 where
  bad_env inval no_mem no_sys no_free_env ipc_not_recv : Error
  no_disk max_open not_found bad_path file_exists not_exec : Error
