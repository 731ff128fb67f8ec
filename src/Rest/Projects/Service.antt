-- ===== src/Rest/Projects/Service.antt =====
-- projects.service.ts: its calls that write.
use uml_class_designer_be.Common.{ℕ, String, Option}
use uml_class_designer_be.Collaboration.Database.{Database}
use uml_class_designer_be.Rest.Projects.{ProjectRequest, UpdateProject}
use uml_class_designer_be.Rest.Projects.Writes.{create, update_owner_project, delete_owner_project}
use uml_class_designer_be.Rest.Projects.Members.{add_editor, remove_editor}

-- A call that may write.
pub data ProjectCall : Type 0 where
  creates : (id name : String) (description : Option String) → ProjectCall
  updates : (project : String) → UpdateProject → ProjectCall
  deletes : (project : String) → ProjectCall
  adds_editor : (project user email : String) → ProjectCall
  removes_editor : (project user : String) → ProjectCall

-- what a call commits
unfoldable pub written_by : ProjectRequest → ProjectCall → (ℕ → Database) → Option Database
written_by q (creates id name description) seen = (create q id name description seen).written
written_by q (updates project input) seen = (update_owner_project q project input seen).written
written_by q (deletes project) seen = (delete_owner_project q project seen).written
written_by q (adds_editor project user email) seen = (add_editor q project user email seen).written
written_by q (removes_editor project user) seen = (remove_editor q project user seen).written

-- the statement that writes
abbrev pub writing_statement : ProjectCall → ℕ
writing_statement (creates id name description) = 1
writing_statement (updates project input) = 1
writing_statement (deletes project) = 4
writing_statement (adds_editor project user email) = 3
writing_statement (removes_editor project user) = 5
