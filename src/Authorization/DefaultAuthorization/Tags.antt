-- ===== src/Authorization/DefaultAuthorization/Tags.antt =====
-- DefaultAuthorization.cpp: what may be done with tags.
use forum.Authorization.Enums.{
  DiscussionThreadPrivilege, DiscussionTagPrivilege, DiscussionCategoryPrivilege,
  ForumWidePrivilege, UserActionThrottling,
}
use forum.Authorization.Entities.{User, DiscussionTag, DiscussionThread, DiscussionCategory}
use forum.Authorization.DefaultAuthorization.{
  DefaultAuthorization, Context, AuthorizationStatus, Action, ◌>>◌, answer, unless_empty, both,
  to_status, return_if_throttled, with_thread, with_tag, with_category, with_forum_wide,
  allowed_tags,
}

module _ (a : DefaultAuthorization) (c : Context) (current_user : User) where
  unfoldable pub get_discussion_tag_by_id : DiscussionTag → AuthorizationStatus
  unfolding with_tag
  get_discussion_tag_by_id tag =
      to_status (with_tag a c current_user tag DiscussionTagPrivilege.view)

  unfoldable pub get_discussion_tags : AuthorizationStatus
  unfolding with_forum_wide
  get_discussion_tags =
      to_status (with_forum_wide a c current_user ForumWidePrivilege.get_all_discussion_tags)

  unfoldable pub get_allow_discussion_tag_privilege_change : DiscussionTag → AuthorizationStatus
  unfolding with_tag
  get_allow_discussion_tag_privilege_change tag =
      to_status (with_tag a c current_user tag DiscussionTagPrivilege.adjust_privilege)

  unfoldable pub add_new_discussion_tag : Action
  unfolding return_if_throttled with_forum_wide
  add_new_discussion_tag = do
    return_if_throttled a c current_user UserActionThrottling.new_content
    answer (to_status (with_forum_wide a c current_user ForumWidePrivilege.add_discussion_tag))

  unfoldable pub change_discussion_tag_name : DiscussionTag → Action
  unfolding return_if_throttled with_tag
  change_discussion_tag_name tag = do
    return_if_throttled a c current_user UserActionThrottling.edit_content
    answer (to_status (with_tag a c current_user tag DiscussionTagPrivilege.change_name))

  unfoldable pub change_discussion_tag_ui_blob : DiscussionTag → Action
  unfolding return_if_throttled with_tag
  change_discussion_tag_ui_blob tag = do
    return_if_throttled a c current_user UserActionThrottling.edit_content
    answer (to_status (with_tag a c current_user tag DiscussionTagPrivilege.change_uiblob))

  unfoldable pub delete_discussion_tag : DiscussionTag → Action
  unfolding return_if_throttled with_tag
  delete_discussion_tag tag = do
    return_if_throttled a c current_user UserActionThrottling.edit_content
    answer (to_status (with_tag a c current_user tag DiscussionTagPrivilege.delete))

  unfoldable pub add_discussion_tag_to_thread : DiscussionTag → DiscussionThread → Action
  unfolding return_if_throttled with_tag with_thread
  add_discussion_tag_to_thread tag thread = do
    unless_empty thread (return_if_throttled a c current_user UserActionThrottling.edit_content)
    answer (
        both (to_status (with_tag a c current_user tag DiscussionTagPrivilege.view))
          (to_status (with_thread a c current_user thread DiscussionThreadPrivilege.add_tag)))

  unfoldable pub remove_discussion_tag_from_thread : DiscussionTag → DiscussionThread → Action
  unfolding return_if_throttled with_tag with_thread
  remove_discussion_tag_from_thread tag thread = do
    return_if_throttled a c current_user UserActionThrottling.edit_content
    answer (
        both (to_status (with_tag a c current_user tag DiscussionTagPrivilege.view))
          (to_status (with_thread a c current_user thread DiscussionThreadPrivilege.remove_tag)))

  unfoldable pub merge_discussion_tags : DiscussionTag → DiscussionTag → Action
  unfolding allowed_tags return_if_throttled
  merge_discussion_tags from into = do
    return_if_throttled a c current_user UserActionThrottling.edit_content
    answer (allowed_tags a c current_user from into DiscussionTagPrivilege.merge)

  unfoldable pub get_discussion_category_required_privileges :
      DiscussionCategory → AuthorizationStatus
  unfolding with_category
  get_discussion_category_required_privileges category =
      to_status (
        with_category a c current_user category
          DiscussionCategoryPrivilege.view_required_privileges)
